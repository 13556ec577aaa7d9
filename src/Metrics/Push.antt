-- ===== src/Metrics/Push.antt =====
-- prometheus/prometheus.go: the pusher to the gateway, which Run makes if it is configured, and the address
-- by which it names this instance.
use das_multi_device.Prelude.{
  ℕ, String, not, ◌&&◌, Option, none, some, List, [], ◌∷◌, ◌++◌, ◌≡◌, refl, arith, str_eq,
  if◌then◌else◌,
}
use das_multi_device.Outcome.{Error, Result, ok, err}
use das_multi_device.Config.{ServerCfg}

-- net.InterfaceByName, and its Addrs: each address is an IPv4 one as its text, or another.
abbrev pub Interface : Type 0
Interface = Result Error (Result Error (List (Option String)))

-- The loop that stops at the first address that To4 takes.
unfoldable pub first_ipv4 : List (Option String) → Option String
first_ipv4 [] = none
first_ipv4 (some ip ∷ addrs) = some ip
first_ipv4 (none ∷ addrs) = first_ipv4 addrs

abbrev text_of : Option String → String
text_of none = ""
text_of (some ip) = ip

-- GetLocalIp: every failure is logged, and is the empty text.
unfoldable pub get_local_ip : Interface → String
unfolding first_ipv4
get_local_ip (err e) = ""
get_local_ip (ok (err e)) = ""
get_local_ip (ok (ok addrs)) = text_of (first_ipv4 addrs)

pub record Pusher : Type 0 where
  pub gateway : String
  pub job : String
  pub groupings : List (String × String)

-- Run, up to the goroutine that pushes every five seconds. `net_text` is fmt.Sprint, and the interface is
-- that of eth0.
unfoldable pub run_pusher : (ℕ → String) → Interface → ServerCfg → Option Pusher
unfolding get_local_ip
run_pusher net_text eth0 cfg =
    if not (str_eq cfg.prometheus_push_gateway "") && not (str_eq cfg.name "")
    then some (record {
      gateway = cfg.prometheus_push_gateway;
      job = cfg.name;
      groupings = ("env", net_text cfg.net) ∷ ("instance", get_local_ip eth0) ∷ [];
    })
    else none

-- Addresses of other kinds in front do not matter.
pub first_ipv4-skips :
    (others : List (Option String)) (ip : String) (later : List (Option String))
    → first_ipv4 others ≡ none
    → first_ipv4 (others ++ some ip ∷ later) ≡ some ip
unfolding first_ipv4
first_ipv4-skips [] ip later h = refl
first_ipv4-skips (none ∷ others) ip later h = first_ipv4-skips others ip later h
first_ipv4-skips (some first ∷ others) ip later h = ground (arith, h)
