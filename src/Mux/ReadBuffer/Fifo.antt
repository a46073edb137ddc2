-- ===== src/Mux/ReadBuffer/Fifo.antt =====
-- A stream's bytes come out as they went in (transport/phpbox/mux.go, `rbuffer`).
use openflux_zen_server.Prelude.{
  ℕ, ◌≡◌, refl, sym, ap, ◌∙◌, Bool, true, false, List, [], ◌∷◌, ◌++◌, if◌then◌else◌,
  take-append-drop, append-nil, append_assoc, Bool-cases, inl, inr,
}
use openflux_zen_server.Mux.ReadBuffer.{
  RBuffer, new_rbuffer, write, close_rbuffer, read_from, read, BufferCall, writes, reads, closes,
  bytes_of, run_calls,
}

-- What was written before the close.
abbrev pub written : List BufferCall → List ℕ
written [] = []
written (writes p ∷ rest) = p ++ written rest
written (reads room ∷ rest) = written rest
written (closes ∷ rest) = []

read-kept :
    (r : RBuffer) (room : ℕ) (held : List ℕ)
    → r.buf ≡ held
    → (bytes_of (read_from r room held).1 ++ (read_from r room held).0.buf ≡ held)
      × ((read_from r room held).0.eof ≡ r.eof)
unfolding read_from bytes_of
read-kept r room [] e = elim (Bool-cases r.eof) [ inl b ↦ (rw b e, refl) | inr b ↦ (rw b e, refl) ]
read-kept r room (b ∷ bs) e = (take-append-drop room (b ∷ bs), refl)

-- What is still to come out: what is held, and what the calls write before the close.
abbrev owed : RBuffer → List BufferCall → List ℕ
owed r ms = r.buf ++ (if r.eof then [] else written ms)

closed_write : (r : RBuffer) (p : List ℕ) → r.eof ≡ true → write r p ≡ r
unfolding write
closed_write r p b = rw b refl

open_write : (r : RBuffer) (p : List ℕ) → r.eof ≡ false → write r p ≡ record r { buf = r.buf ++ p }
unfolding write
open_write r p b = rw b refl

owed-write :
    (r : RBuffer) (p : List ℕ) (ms : List BufferCall) → owed (write r p) ms ≡ owed r (writes p ∷ ms)
unfolding write
owed-write r p ms = elim (Bool-cases r.eof) [
  | inl b ↦ rw (closed_write r p b, b) refl
  | inr b ↦ rw (open_write r p b, b) (append_assoc r.buf p (written ms))
]

abbrev nothing : List ℕ
nothing = []

same_empty : (b : Bool) → (if b then nothing else nothing) ≡ nothing
same_empty true = refl
same_empty false = refl

-- A run gives out what is owed, in order, and holds the rest.
run_calls-owed :
    (r : RBuffer) (ms : List BufferCall) → (run_calls r ms).1 ++ (run_calls r ms).0.buf ≡ owed r ms
unfolding run_calls read close_rbuffer
run_calls-owed r [] = sym (ap (λ xs. r.buf ++ xs) (same_empty r.eof) ∙ append-nil r.buf)
run_calls-owed r (writes p ∷ rest) = run_calls-owed (write r p) rest ∙ owed-write r p rest
run_calls-owed r (reads room ∷ rest) =
    let (kept, same) = read-kept r room r.buf refl in
    let r' = (read_from r room r.buf).0 in
    let out = bytes_of (read_from r room r.buf).1 in
    let (end, more) = run_calls r' rest in
    append_assoc out more end.buf
    ∙ ap (λ xs. out ++ xs) (run_calls-owed r' rest)
    ∙ sym (append_assoc out r'.buf (if r'.eof then [] else written rest))
    ∙ ap (λ xs. xs ++ (if r'.eof then [] else written rest)) kept
    ∙ ap (λ b. r.buf ++ (if b then [] else written rest)) same
run_calls-owed r (closes ∷ rest) =
    run_calls-owed (close_rbuffer r) rest ∙ sym (ap (λ xs. r.buf ++ xs) (same_empty r.eof))

-- Whatever writes, reads and closings come, in any order: the bytes that the reads gave, followed by
-- the bytes still held, are those that were written before the first close, in order.
pub run_calls_lem :
    (ms : List BufferCall)
    → (run_calls new_rbuffer ms).1 ++ (run_calls new_rbuffer ms).0.buf ≡ written ms
unfolding new_rbuffer
run_calls_lem ms = run_calls-owed new_rbuffer ms
