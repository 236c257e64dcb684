-- ===== src/Api/Middleware.antt =====
-- internal/httpapi/middleware.go: CORS and LANOnly before the routes. An address is what net.ParseIP makes
-- of the remote host.
pub mod Private
use raku_sika_hub.Prelude.{
  ℕ, zero, suc, ◌+◌, ◌-◌, ◌*◌, ◌/◌, ◌^◌, ◌==◌, leb, Bool, true, false, ◌&&◌, ◌||◌, Option, none,
  some, List, [], ◌∷◌, String, str_eq, if◌then◌else◌, length, replicate,
}
use raku_sika_hub.Scale.Text.{same_bytes}

-- The four bytes of an IPv4 address, which To4 makes of an address that maps one, or the sixteen of
-- another.
pub data Ip : Type 0 where
  v4 : (a b c d : ℕ) → Ip
  v6 : List ℕ → Ip

-- A network: its bytes, and the number of bits that count.
pub record Net : Type 0 where
  pub address : List ℕ
  pub ones : ℕ

abbrev bytes_of : Ip → List ℕ
bytes_of (v4 a b c d) = a ∷ b ∷ c ∷ d ∷ []
bytes_of (v6 bs) = bs

-- The first bits of two lists of bytes are the same: that many whole bytes, and the top of the next.
unfoldable pub same_bits : ℕ → ℕ → List ℕ → List ℕ → Bool
same_bits zero part (x ∷ xs) (y ∷ ys) = x / 2 ^ (8 - part) == y / 2 ^ (8 - part)
same_bits zero part xs ys = true
same_bits (suc whole) part [] [] = true
same_bits (suc whole) part [] (y ∷ ys) = false
same_bits (suc whole) part (x ∷ xs) [] = false
same_bits (suc whole) part (x ∷ xs) (y ∷ ys) = x == y && same_bits whole part xs ys

-- IPNet.Contains.
unfoldable pub net_contains : Net → Ip → Bool
unfolding same_bits
net_contains net ip =
    length net.address == length (bytes_of ip)
    && same_bits (net.ones / 8) (net.ones - 8 * (net.ones / 8)) net.address (bytes_of ip)

abbrev pub private_nets : List Net
private_nets =
    record { address = 127 ∷ 0 ∷ 0 ∷ 0 ∷ []; ones = 8 }
    ∷ record { address = 10 ∷ 0 ∷ 0 ∷ 0 ∷ []; ones = 8 }
    ∷ record { address = 172 ∷ 16 ∷ 0 ∷ 0 ∷ []; ones = 12 }
    ∷ record { address = 192 ∷ 168 ∷ 0 ∷ 0 ∷ []; ones = 16 }
    ∷ record {
      address = 0 ∷ 0 ∷ 0 ∷ 0 ∷ 0 ∷ 0 ∷ 0 ∷ 0 ∷ 0 ∷ 0 ∷ 0 ∷ 0 ∷ 0 ∷ 0 ∷ 0 ∷ 1 ∷ [];
      ones = 128;
    }
    ∷ record {
      address = 0xFE ∷ 0x80 ∷ 0 ∷ 0 ∷ 0 ∷ 0 ∷ 0 ∷ 0 ∷ 0 ∷ 0 ∷ 0 ∷ 0 ∷ 0 ∷ 0 ∷ 0 ∷ 0 ∷ [];
      ones = 10;
    }
    ∷ []

abbrev any_contains : List Net → Ip → Bool
any_contains [] ip = false
any_contains (n ∷ ns) ip = net_contains n ip || any_contains ns ip

unfoldable pub is_private_ip : Ip → Bool
unfolding net_contains
is_private_ip ip = any_contains private_nets ip

-- What becomes of a request: 204 for a preflight, 403, or the answer of the routes.
pub data Passed {ℓ} (A : Type ℓ) : Type ℓ where
  no_content forbidden : Passed A
  routed : A → Passed A

abbrev pub private_host : Option Ip → Bool
private_host none = false
private_host (some ip) = is_private_ip ip

module _ {ℓ} {Request : Type 0} {A : Type ℓ} where
  unfoldable pub lan_only : (Request → Passed A) → Option Ip → Request → Passed A
  unfolding is_private_ip
  lan_only next host request = if private_host host then next request else forbidden

  unfoldable pub cors : (Request → Passed A) → String → Request → Passed A
  cors next method request = if str_eq method "OPTIONS" then no_content else next request

  -- The handler that Start makes of the routes.
  unfoldable pub handler : (Request → A) → String → Option Ip → Request → Passed A
  unfolding cors lan_only
  handler routes method host request =
      cors (λ r. lan_only (λ q. routed (routes q)) host r) method request
