-- ===== src/Webhooks/Private.antt =====
-- engine/src/queue/webhooks.rs: `is_private_ip` and the address blocks that it names.
use flashq.Prelude.{ℕ, ◌+◌, ◌*◌, ◌/◌, ◌^◌, ◌<◌, ◌≡◌, Bool, ◌||◌, ◌&&◌, arith, nat_beq, leb}
use flashq.Webhooks.Address.{is_private_v4}

-- The address as a number of 32 bits.
abbrev pub address : ℕ → ℕ → ℕ → ℕ → ℕ
address a b c d = ((a * 256 + b) * 256 + c) * 256 + d

-- A block, by its first address and the bits behind its prefix, as in `172.16.0.0/12`.
abbrev pub in_block : ℕ → ℕ → ℕ → Bool
in_block first size ip = nat_beq (ip / size) (first / size)

abbrev pub in_private_block : ℕ → Bool
in_private_block ip =
    in_block (address 127 0 0 0) (2 ^ 24) ip
    || (in_block (address 10 0 0 0) (2 ^ 24) ip
        || (in_block (address 172 16 0 0) (2 ^ 20) ip
            || (in_block (address 192 168 0 0) (2 ^ 16) ip
                || (in_block (address 169 254 0 0) (2 ^ 16) ip
                    || (in_block (address 255 255 255 255) 1 ip
                        || (in_block (address 0 0 0 0) 1 ip
                            || (in_block (address 192 0 2 0) (2 ^ 8) ip
                                || (in_block (address 198 51 100 0) (2 ^ 8) ip
                                    || (in_block (address 203 0 113 0) (2 ^ 8) ip
                                        || in_block (address 100 64 0 0) (2 ^ 22) ip)))))))))

module _ (a b c d : ℕ) (ha : a < 256) (hb : b < 256) (hc : c < 256) (hd : d < 256) where
  one_octet : (x : ℕ) → in_block (address x 0 0 0) (2 ^ 24) (address a b c d) ≡ nat_beq a x
  one_octet x = ground arith

  two_octets :
      (x y : ℕ)
      → y < 256
      → in_block (address x y 0 0) (2 ^ 16) (address a b c d) ≡ (nat_beq a x && nat_beq b y)
  two_octets x y h = ground arith

  three_octets :
      (x y z : ℕ)
      → y < 256
      → z < 256
      → in_block (address x y z 0) (2 ^ 8) (address a b c d)
        ≡ (nat_beq a x && (nat_beq b y && nat_beq c z))
  three_octets x y z h k = ground arith

  twelve_bits :
      in_block (address 172 16 0 0) (2 ^ 20) (address a b c d)
      ≡ (nat_beq a 172 && (leb 16 b && leb b 31))
  twelve_bits = ground arith

  ten_bits :
      in_block (address 100 64 0 0) (2 ^ 22) (address a b c d)
      ≡ (nat_beq a 100 && (leb 64 b && leb b 127))
  ten_bits = ground arith

  all_bits :
      (x : ℕ)
      → x < 256
      → in_block (address x x x x) 1 (address a b c d)
        ≡ (nat_beq a x && (nat_beq b x && (nat_beq c x && nat_beq d x)))
  all_bits x h = ground arith

  -- `is_private_ip` holds of an IPv4 address exactly if it lies, as a number, in one of the blocks
  -- 127.0.0.0/8, 10.0.0.0/8, 172.16.0.0/12, 192.168.0.0/16, 169.254.0.0/16, 192.0.2.0/24,
  -- 198.51.100.0/24, 203.0.113.0/24 and 100.64.0.0/10, or is 255.255.255.255 or 0.0.0.0.
  pub is_private_v4-blocks : is_private_v4 a b c d ≡ in_private_block (address a b c d)
  unfolding is_private_v4
  is_private_v4-blocks = ground (
    arith,
    one_octet 127,
    one_octet 10,
    twelve_bits,
    two_octets 192 168 (omega arith),
    two_octets 169 254 (omega arith),
    all_bits 255 (omega arith),
    all_bits 0 (omega arith),
    three_octets 192 0 2 (omega arith) (omega arith),
    three_octets 198 51 100 (omega arith) (omega arith),
    three_octets 203 0 113 (omega arith) (omega arith),
    ten_bits,
  )
