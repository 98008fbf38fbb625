-- ===== src/ApiKey/Network.antt =====
-- backend/middleware/apikey.go: `ipAllowed`. Go's net package is a parameter.
use logmara.Prelude.{
  ℕ, ◌==◌, leb, Bool, true, false, ◌&&◌, ◌||◌, Option, none, some, List, [], ◌∷◌, if◌then◌else◌,
  is_nil, Text, codes, contains,
}

-- `net.ParseIP`, `net.ParseCIDR`, `IPNet.Contains`, `IP.Equal`.
pub record NetLib : Type 1 where
  pub Ip : Type 0
  pub IpNet : Type 0
  pub parse_ip : Text → Option Ip
  pub parse_cidr : Text → Option IpNet
  pub net_contains : IpNet → Ip → Bool
  pub ip_equal : Ip → Ip → Bool

-- `strings.TrimSpace` on the ASCII spaces.
abbrev pub is_space : ℕ → Bool
is_space c = (leb 9 c && leb c 13) || (c == 32)

abbrev pub trim_front : Text → Text
trim_front [] = []
trim_front (c ∷ t) = if is_space c then trim_front t else c ∷ t

abbrev pub cons_back : ℕ → Text → Text
cons_back c [] = if is_space c then [] else c ∷ []
cons_back c (d ∷ t) = c ∷ d ∷ t

abbrev pub trim_back : Text → Text
trim_back [] = []
trim_back (c ∷ t) = cons_back c (trim_back t)

abbrev pub trim_space : Text → Text
trim_space t = trim_back (trim_front t)

module _ (net : NetLib) where
  open net use {Ip, IpNet, parse_ip, parse_cidr, net_contains, ip_equal}

  abbrev pub in_net : Ip → Option IpNet → Bool
  in_net ip none = false
  in_net ip (some range) = net_contains range ip

  abbrev pub is_ip : Ip → Option Ip → Bool
  is_ip ip none = false
  is_ip ip (some entry) = ip_equal entry ip

  -- What one entry, trimmed, says.
  unfoldable pub entry_allows : Ip → Text → Bool
  entry_allows ip entry =
      if is_nil entry
      then false
      else (if contains entry (codes "/")
          then in_net ip (parse_cidr entry)
          else is_ip ip (parse_ip entry))

  -- The loop: the first entry that matches returns.
  unfoldable pub any_allows : Ip → List Text → Bool
  any_allows ip [] = false
  any_allows ip (entry ∷ rest) =
      let later = any_allows ip rest in if entry_allows ip (trim_space entry) then true else later

  abbrev pub client_allowed : List Text → Option Ip → Bool
  client_allowed allowed none = false
  client_allowed allowed (some ip) = any_allows ip allowed

  unfoldable pub ip_allowed : Text → List Text → Bool
  ip_allowed client_ip allowed = client_allowed allowed (parse_ip client_ip)
