-- ===== src/Demux.antt =====
-- transport/portdemux.go and transport/framedemux.go: which of two consumers gets what a carrier
-- delivers. A callback is a number, and none is a callback that is not installed.
pub mod Ports
use openflux_zen_server.Prelude.{
  ℕ, ◌+◌, ◌/◌, ◌%◌, Bool, true, false, not, ◌&&◌, ◌||◌, List, [], ◌∷◌, Option, none, some, ltb, leb,
  ◌==◌, if◌then◌else◌, length, byte_at, be16,
}
use openflux_zen_server.L3.Checksum.{header_length}

-- `tcpDestinationPort`
pub tcp_destination_port : List ℕ → Option ℕ
tcp_destination_port p =
    let ihl = header_length p in
    if ltb (length p) 20 || (not (byte_at p 0 / 16 == 4) || not (byte_at p 9 == 6))
    then none
    else if not (be16 p 6 % 8192 == 0)
    then none
    else if ltb ihl 20 || ltb (length p) (ihl + 4)
    then none
    else some (be16 p (ihl + 2))

-- `PortDemux`
pub record PortDemux : Type 0 where
  pub lo : ℕ
  pub hi : ℕ
  pub main_callback : Option ℕ
  pub side_callback : Option ℕ

-- `Receive` of the main consumer, and `Receive` of the side end.
pub install_main : PortDemux → Option ℕ → PortDemux
install_main d callback = record d { main_callback = callback }

pub install_side : PortDemux → Option ℕ → PortDemux
install_side d callback = record d { side_callback = callback }

pub consumer_of : PortDemux → Option ℕ → Option ℕ
consumer_of d none = d.main_callback
consumer_of d (some port) =
    if leb d.lo port && leb port d.hi then d.side_callback else d.main_callback

-- `dispatch`: the callback that gets the packet, if it is installed.
pub dispatch_port : PortDemux → List ℕ → Option ℕ
unfolding consumer_of
dispatch_port d p = consumer_of d (tcp_destination_port p)

-- `encryptedMagic[0]`
abbrev pub session_magic : ℕ
session_magic = 79

-- `frameDemux`
pub record FrameDemux : Type 0 where
  pub session_callback : Option ℕ
  pub classic_callback : Option ℕ

-- `dispatch`: the callback that gets the frame. What is left of the source's function logs.
pub dispatch_frame : FrameDemux → List ℕ → Option ℕ
dispatch_frame d [] = none
dispatch_frame d (b ∷ rest) = if b == session_magic then d.session_callback else d.classic_callback

-- `Receive` of one side: its callback is the new one.
pub receive_side : FrameDemux → Bool → Option ℕ → FrameDemux
receive_side d true callback = record d { session_callback = callback }
receive_side d false callback = record d { classic_callback = callback }
