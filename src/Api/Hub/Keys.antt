-- ===== src/Api/Hub/Keys.antt =====
-- internal/ws/server.go: the keys of the hub's map.
use raku_sika_hub.Prelude.{
  ℕ, ◌≡◌, ◌≢◌, refl, true, false, List, [], ◌∷◌, ◌==◌, arith, Bool-cases, inl, inr, if_cases,
  if◌then◌else◌, ◌⊎◌, ==_iff, sym,
}
use raku_sika_hub.Api.Hub.{Server, has_client, add_client, delete_client, send, send_each, offer}

-- No key stands twice.
abbrev pub AreKeys : List ℕ → Type 0
AreKeys [] = Unit
AreKeys (d ∷ ds) = (has_client d ds ≡ false) × AreKeys ds

pub has_client-delete_client :
    (c d : ℕ) (ds : List ℕ) → has_client d (delete_client c ds) ≡ true → has_client d ds ≡ true
unfolding has_client delete_client
has_client-delete_client c d [] = λ h. h
has_client-delete_client c d (e ∷ es) =
    if_cases (λ r. has_client d r ≡ true → has_client d (e ∷ es) ≡ true) (e == c)
      (λ _ h. ground (arith, h, has_client-delete_client c d es))
      (λ _ h. ground (arith, h, has_client-delete_client c d es))

pub has_client-delete_same : (c : ℕ) (ds : List ℕ) → has_client c (delete_client c ds) ≡ false
unfolding has_client delete_client
has_client-delete_same c [] = refl
has_client-delete_same c (e ∷ es) =
    if_cases (λ r. has_client c r ≡ false) (e == c) (λ _. has_client-delete_same c es)
      (λ h. ground (arith, h, has_client-delete_same c es))

has_client-add_client :
    (c d : ℕ) (ds : List ℕ)
    → has_client d (add_client c ds) ≡ true
    → (d ≡ c) ⊎ (has_client d ds ≡ true)
unfolding has_client add_client
has_client-add_client c d ds =
    if_cases (λ r. has_client d r ≡ true → (d ≡ c) ⊎ (has_client d ds ≡ true)) (has_client c ds)
      (λ _ h. inr h) (λ _ h. ground (arith, h))

pub AreKeys-add_client : (c : ℕ) (ds : List ℕ) → AreKeys ds → AreKeys (add_client c ds)
unfolding add_client
AreKeys-add_client c ds k = if_cases AreKeys (has_client c ds) (λ _. k) (λ e. (e, k))

pub absent-delete_client :
    (c d : ℕ) (ds : List ℕ) → has_client d ds ≡ false → has_client d (delete_client c ds) ≡ false
absent-delete_client c d ds h = elim (Bool-cases (has_client d (delete_client c ds))) [
  | inl e ↦ absurd (cc (h, has_client-delete_client c d ds e))
  | inr e ↦ e
]

pub old-add_client :
    (c d : ℕ) (ds : List ℕ) → d ≢ c → has_client d (add_client c ds) ≡ true → has_client d ds ≡ true
old-add_client c d ds n h = elim (has_client-add_client c d ds h) [
  | inl s ↦ absurd (n s)
  | inr e ↦ e
]

pub absent-add_client :
    (c d : ℕ) (ds : List ℕ)
    → d ≢ c
    → has_client d ds ≡ false
    → has_client d (add_client c ds) ≡ false
absent-add_client c d ds n h = elim (Bool-cases (has_client d (add_client c ds))) [
  | inl e ↦ absurd (cc (h, old-add_client c d ds n e))
  | inr e ↦ e
]

-- A client in the map is another one than a client that is not.
pub apart :
    (c d : ℕ) (ds : List ℕ) → has_client c ds ≡ true → has_client d ds ≡ false → (d == c) ≡ false
apart c d ds here gone = elim (Bool-cases (d == c)) [
  | inl e ↦ absurd (cc (here, gone, (==_iff d c).0 e))
  | inr e ↦ e
]

pub AreKeys-delete_client : (c : ℕ) (ds : List ℕ) → AreKeys ds → AreKeys (delete_client c ds)
unfolding delete_client
AreKeys-delete_client c [] k = tt
AreKeys-delete_client c (d ∷ ds) k =
    if_cases AreKeys (d == c) (λ _. AreKeys-delete_client c ds k.1)
      (λ _. (absent-delete_client c d ds k.0, AreKeys-delete_client c ds k.1))

module _ {M : Type 0} where
  -- A broadcast changes the channels only.
  pub send_each_lem :
      (m : M) (cs : List ℕ) (s : Server M)
      → send_each m cs s ≡ record s { channels = (send_each m cs s).channels }
  unfolding send_each send
  send_each_lem m [] s = refl
  send_each_lem m (c ∷ cs) s = send_each_lem m cs (send m c s)

  -- A broadcast offers the message to each client once.
  pub channels-send_each :
      (m : M) (cs : List ℕ) (s : Server M) (c : ℕ)
      → AreKeys cs
      → (send_each m cs s).channels c
        ≡ (if has_client c cs then offer m (s.channels c) else s.channels c)
  unfolding send_each send has_client
  channels-send_each m [] s c k = refl
  channels-send_each m (d ∷ ds) s c k =
      let later = channels-send_each m ds (send m d s) c k.1 in
      elim (Bool-cases (d == c)) [
        | inl e ↦ cc (later, k.0, (==_iff d c).0 e, (==_iff c d).1 (sym ((==_iff d c).0 e)), e)
        | inr e ↦ ground (arith, later, e)
      ]
