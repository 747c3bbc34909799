-- ===== src/Classifier.antt =====
-- src/linux/bpf/classifier.bpf.c: the cgroup hook that marks, admits or refuses a new socket.
mod Bits
pub mod Verdict
use wireguard_dns_program_sp.Base.{
  ℕ, ◌-◌, ◌^◌, Bool, true, false, not, ◌&&◌, ◌||◌, Option, none, some, ◌==◌, ◌!=◌, if◌then◌else◌,
  bit_and, bit_or,
}
use wireguard_dns_program_sp.Base.Bits.{bit_not}
use wireguard_dns_program_sp.Kernel.{Kernel}
use wireguard_dns_program_sp.Policy.{
  PolicyMaps, PolicyConfig, Reason, result, policy_select, passes,
}

abbrev pub af_inet : ℕ
af_inet = 2

abbrev pub af_inet6 : ℕ
af_inet6 = 10

abbrev pub af_packet : ℕ
af_packet = 17

abbrev pub sock_stream : ℕ
sock_stream = 1

abbrev pub sock_dgram : ℕ
sock_dgram = 2

-- The maps, and SO_MARK of each socket by the address of its `struct sock`.
pub record SocketState : Type 0 where
  pub maps : PolicyMaps
  pub so_mark : ℕ → ℕ

-- `bpf_setsockopt(sk, SOL_SOCKET, SO_MARK, &mark, ...)` where it succeeds.
abbrev pub set_mark : (ℕ → ℕ) → ℕ → ℕ → ℕ → ℕ
set_mark m sk v j = if sk == j then v else m j

-- `(mark & ~cfg->mask) | cfg->mark` over 32 bits.
unfoldable pub policy_mark : PolicyConfig → ℕ → ℕ
policy_mark cfg mark = bit_or (bit_and mark (bit_not 32 cfg.mask)) cfg.mark

abbrev pub guarded_family : ℕ → Bool
guarded_family family = family == af_inet || family == af_inet6 || family == af_packet

abbrev pub supported_socket : ℕ → ℕ → ℕ → Bool
supported_socket family kind protocol =
    family == af_inet
    && (kind == sock_stream || kind == sock_dgram)
    && (protocol == 0 || protocol == 6 || protocol == 17)

-- `return result(reason, allow)`.
unfoldable pub finish : SocketState → Reason → Bool → SocketState × Bool
finish st r allow =
    let (maps, verdict) = result st.maps r allow in (record st { maps = maps }, verdict)

-- From the selection INCLUDED on; the configuration is looked up again.
unfoldable pub mark_included :
    Kernel → SocketState → Option PolicyConfig → ℕ → ℕ → ℕ → ℕ → SocketState × Bool
unfolding finish policy_mark
mark_included k st none sock family kind protocol = finish st Reason.blocked false
mark_included k st (some cfg) sock family kind protocol =
    let sk = k.socket_sk sock in
    if not (supported_socket family kind protocol)
    then finish st Reason.unsupported_socket false
    else if cfg.ready == 0
    then finish st Reason.blocked false
    else if sk == 0
    then finish st Reason.sockopt_error false
    else if k.getsockopt_fails
    then finish st Reason.sockopt_error false
    else if k.setsockopt_fails
    then finish st Reason.sockopt_error false
    else finish (record st { so_mark = set_mark st.so_mark sk (policy_mark cfg (st.so_mark sk)) })
        Reason.included true

unfoldable pub by_selection : Kernel → SocketState → Reason → ℕ → ℕ → ℕ → ℕ → SocketState × Bool
unfolding mark_included
by_selection k st Reason.included sock family kind protocol =
    mark_included k st st.maps.policy_cfg sock family kind protocol
by_selection k st r sock family kind protocol = finish st r (passes r)

-- True grants the socket (the program returns 1), false denies it.
unfoldable pub classify : Kernel → SocketState → ℕ → ℕ → ℕ → ℕ → Bool → SocketState × Bool
unfolding by_selection
classify k st sock family kind protocol kern =
    if kern || not (guarded_family family)
    then (st, true)
    else by_selection k st (policy_select k st.maps) sock family kind protocol
