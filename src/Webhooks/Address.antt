-- ===== src/Webhooks/Address.antt =====
-- engine/src/queue/webhooks.rs: the check of a webhook's address. Parsing a URL and an IP address and
-- lower case of Unicode texts are parameters.
use flashq.Prelude.{
  ℕ, ◌/◌, ◌%◌, String, Bool, true, false, ◌||◌, ◌&&◌, Option, none, some, List, [], ◌∷◌, drop, leb,
  nat_beq, codes, string_eq, ◌==◌, if◌then◌else◌,
}
use flashq.Result.{
  Result, ok, err, invalid_url, bad_scheme, no_host, localhost_url, private_ip, internal_url,
}

-- The octets of an IPv4 address, the segments of an IPv6 address.
pub data Ip : Type 0 where
  v4 : ℕ → ℕ → ℕ → ℕ → Ip
  v6 : ℕ → ℕ → ℕ → ℕ → ℕ → ℕ → ℕ → ℕ → Ip

-- The tests of `std::net::Ipv4Addr`.
abbrev pub is_loopback : ℕ → Bool
is_loopback a = nat_beq a 127

abbrev pub is_private : ℕ → ℕ → Bool
is_private a b =
    nat_beq a 10 || ((nat_beq a 172 && (leb 16 b && leb b 31)) || (nat_beq a 192 && nat_beq b 168))

abbrev pub is_documentation : ℕ → ℕ → ℕ → Bool
is_documentation a b c =
    (nat_beq a 192 && (nat_beq b 0 && nat_beq c 2))
    || ((nat_beq a 198 && (nat_beq b 51 && nat_beq c 100))
        || (nat_beq a 203 && (nat_beq b 0 && nat_beq c 113)))

abbrev pub all_are : ℕ → ℕ → ℕ → ℕ → ℕ → Bool
all_are n a b c d = nat_beq a n && (nat_beq b n && (nat_beq c n && nat_beq d n))

unfoldable pub is_private_v4 : ℕ → ℕ → ℕ → ℕ → Bool
is_private_v4 a b c d =
    is_loopback a
    || (is_private a b
        || ((nat_beq a 169 && nat_beq b 254)
            || (all_are 255 a b c d
                || (all_are 0 a b c d
                    || (is_documentation a b c || (nat_beq a 100 && (leb 64 b && leb b 127)))))))

-- `& 0xfe00` and `& 0xffc0` clear the lowest 9 and 6 bits of a 16-bit segment.
unfoldable pub is_private_ip : Ip → Bool
unfolding is_private_v4
is_private_ip (v4 a b c d) = is_private_v4 a b c d
is_private_ip (v6 s0 s1 s2 s3 s4 s5 s6 s7) =
    let head_zero = all_are 0 s0 s1 s2 s3 && nat_beq s4 0 in
    if head_zero && (nat_beq s5 0 && (nat_beq s6 0 && leb s7 1))
    then true
    else if head_zero && nat_beq s5 65535
    then is_private_v4 (s6 / 256) (s6 % 256) (s7 / 256) (s7 % 256)
    else nat_beq (s0 / 512) 126 || nat_beq (s0 / 64) 1018

-- Tests on the code points of a text.
abbrev pub starts_with : List ℕ → List ℕ → Bool
starts_with s [] = true
starts_with [] (p ∷ ps) = false
starts_with (c ∷ s) (p ∷ ps) = nat_beq c p && starts_with s ps

abbrev pub contains_text : List ℕ → List ℕ → Bool
contains_text [] p = starts_with [] p
contains_text (c ∷ s) p = starts_with (c ∷ s) p || contains_text s p

abbrev pub same_text : List ℕ → List ℕ → Bool
same_text [] [] = true
same_text (c ∷ s) (d ∷ t) = nat_beq c d && same_text s t
same_text _ _ = false

abbrev pub ends_with : List ℕ → List ℕ → Bool
ends_with [] p = same_text [] p
ends_with (c ∷ s) p = same_text (c ∷ s) p || ends_with s p

-- The text without its first and last character, if these are brackets: `&host[1..len - 1]`.
abbrev pub before_last : List ℕ → List ℕ
before_last [] = []
before_last (c ∷ []) = []
before_last (c ∷ d ∷ s) = c ∷ before_last (d ∷ s)

abbrev pub unbracket : List ℕ → Option (List ℕ)
unbracket s =
    if starts_with s (b'[' ∷ []) && ends_with s (b']' ∷ [])
    then some (before_last (drop 1 s))
    else none

-- A parsed URL.
pub record Url : Type 0 where
  pub scheme : String
  pub host : Option (List ℕ)

unfoldable pub is_localhost : List ℕ → Bool
is_localhost host =
    same_text host (codes "localhost")
    || (same_text host (codes "127.0.0.1")
        || (same_text host (codes "::1")
            || (same_text host (codes "[::1]")
                || (same_text host (codes "0.0.0.0")
                    || (ends_with host (codes ".localhost") || ends_with host (codes ".local"))))))

unfoldable pub is_internal : List ℕ → Bool
is_internal host =
    ends_with host (codes ".internal")
    || (ends_with host (codes ".lan")
        || (contains_text host (codes ".svc.cluster.local")
            || (starts_with host (codes "metadata.")
                || (contains_text host (codes "169.254.")
                    || same_text host (codes "metadata.google.internal")))))

abbrev pub is_private_host : Option Ip → Bool
is_private_host none = false
is_private_host (some ip) = is_private_ip ip

module _ (parse_url : String → Option Url) (parse_ip : List ℕ → Option Ip)
    (to_lowercase : List ℕ → List ℕ) where
  unfoldable pub validate_host : List ℕ → Result (Unit {0})
  unfolding is_private_ip is_localhost is_internal
  validate_host host =
      if is_localhost (to_lowercase host)
      then err localhost_url
      else if is_private_host (parse_ip host)
      then err private_ip
      else if elim (unbracket host) [ none ↦ false | some inner ↦ is_private_host (parse_ip inner) ]
      then err private_ip
      else if is_internal (to_lowercase host)
      then err internal_url
      else ok tt

  unfoldable pub validate_webhook_url : String → Result (Unit {0})
  unfolding validate_host
  validate_webhook_url url = elim (parse_url url) [
    | none ↦ err invalid_url
    | some parsed ↦
        if (parsed.scheme == "http") || (parsed.scheme == "https")
        then elim parsed.host [ none ↦ err no_host | some host ↦ validate_host host ]
        else err bad_scheme
  ]
