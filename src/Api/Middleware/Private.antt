-- ===== src/Api/Middleware/Private.antt =====
-- internal/httpapi/middleware.go: which requests reach the routes.
use raku_sika_hub.Prelude.{
  ℕ, ◌≤◌, ◌<◌, ◌≡◌, refl, ◌⊎◌, ◌↔◌, Bool, true, false, some, String, str_eq, arith, if◌then◌else◌,
}
use raku_sika_hub.Api.Middleware.{
  v4, same_bits, net_contains, is_private_ip, no_content, forbidden, routed, lan_only, cors,
  handler,
}

reached :
    {A : Type 0} {Q : Type 0} {x : A} (preflight is_private : Bool)
    → (is_private ≡ true → Q)
    → (Q → is_private ≡ true)
    → ((if preflight then no_content else if is_private then routed x else forbidden) ≡ routed x)
      ↔ ((preflight ≡ false) × Q)
reached true p f g = (λ h. absurd (cc), λ h. absurd (cc))
reached false true f g = (λ h. (refl, f refl), λ h. refl)
reached false false f g = (λ h. absurd (cc), λ h. absurd (cc (g h.1)))

-- The addresses of the station's own host and of private networks.
abbrev pub IsPrivate4 : ℕ → ℕ → Type 0
IsPrivate4 a b =
    (a ≡ 127) ⊎ ((a ≡ 10) ⊎ (((a ≡ 172) × (16 ≤ b) × (b < 32)) ⊎ ((a ≡ 192) × (b ≡ 168))))

is_private_ip-v4 :
    (a b c d : ℕ) → b < 256 → c < 256 → (is_private_ip (v4 a b c d) ≡ true) ↔ IsPrivate4 a b
unfolding is_private_ip net_contains same_bits
is_private_ip-v4 a b c d small little =
    (λ h. ground (arith, h, small, little), λ h. ground (arith, h, small, little))

-- A request from an IPv4 address reaches the routes exactly if it is no preflight and its address is the
-- host's own or of a private network; the answer is then that of the routes.
pub handler-IsPrivate4 :
    {Request : Type 0} {A : Type 0} (routes : Request → A) (method : String) (a b c d : ℕ)
    (request : Request)
    → b < 256
    → c < 256
    → (handler routes method (some (v4 a b c d)) request ≡ routed (routes request))
      ↔ ((str_eq method "OPTIONS" ≡ false) × IsPrivate4 a b)
unfolding handler cors lan_only
handler-IsPrivate4 routes method a b c d request small little =
    let (there, back) = is_private_ip-v4 a b c d small little in
    reached (str_eq method "OPTIONS") (is_private_ip (v4 a b c d)) there back
