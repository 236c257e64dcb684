-- ===== src/Api/Hub/Order.antt =====
-- internal/ws/server.go: messages reach a client in the order in which they are sent.
use raku_sika_hub.Prelude.{
  ℕ, suc, ◌≤◌, ◌<◌, ◌≡◌, refl, sym, ◌∙◌, Bool, true, false, List, [], ◌∷◌, ◌++◌, length, arith,
  if_cases, ==_iff, ◌==◌, if◌then◌else◌, Bool-cases, inl, inr,
}
use mathlib.Core.List.{Sublistᴰ}
use mathlib.Core.Path.{subst}
use raku_sika_hub.Api.Hub.{
  Server, History, Step, Reachable, has_client, delete_client, register, unregister, offer, send,
  broadcast, offered_each, put_at, channel_size,
}
use raku_sika_hub.Api.Hub.Keys.{
  AreKeys, apart, absent-add_client, absent-delete_client, old-add_client, has_client-delete_client,
  has_client-delete_same, AreKeys-add_client, AreKeys-delete_client, send_each_lem,
  channels-send_each,
}
use raku_sika_hub.Api.Hub.Kept.{Kept, Kept-none, Kept-weaken, Kept-offer, Kept-pump, Kept-lost}

if_both {ℓ κ μ} :
    {A : Type ℓ} {B : Type κ} (P : A → B → Type μ) (b : Bool) {x y : A} {u v : B}
    → (b ≡ true → P x u)
    → (b ≡ false → P y v)
    → P (if b then x else y) (if b then u else v)
if_both P true t f = t refl
if_both P false t f = f refl

if_false {ℓ} : {A : Type ℓ} (b : Bool) (x y : A) → b ≡ false → (if b then x else y) ≡ y
if_false true x y h = absurd (cc)
if_false false x y h = refl

module _ {M : Type 0} where
  abbrev KeptOf : History M → Server M → ℕ → Type 0
  KeptOf h s c = Kept (has_client c s.clients) (s.written c) (s.channels c) (h.offered c)

  -- A client that is not made yet has got nothing, and is not in the map.
  abbrev IsFresh : History M → Server M → ℕ → Type 0
  IsFresh h s c =
      s.made ≤ c
      → (s.written c ≡ [])
        × (s.channels c ≡ [])
        × (h.offered c ≡ [])
        × (has_client c s.clients ≡ false)

  abbrev IsSound : History M → Server M → Type 0
  IsSound h s = AreKeys s.clients × ((c : ℕ) → IsFresh h s c) × ((c : ℕ) → KeptOf h s c)

  IsSound-register :
      (h : History M) (s : Server M) (n : ℕ)
      → IsSound h s
      → IsSound h (register s.made (record s { accepting = n; made = suc s.made }))
  unfolding register
  IsSound-register h s n k = (
    AreKeys-add_client s.made s.clients k.0,
    λ c late.
        let fresh = k.1 c (omega (arith, late)) in
        (
          fresh.0,
          fresh.1,
          fresh.2,
          absent-add_client s.made c s.clients (λ e. absurd (omega (arith, late, e))) fresh.3,
        ),
    λ c. elim (Bool-cases (c == s.made)) [
      | inl e ↦
          let fresh = k.1 c (omega (arith, (==_iff c s.made).0 e)) in
          Kept-none _ _ _ _ fresh.0 fresh.1 fresh.2
      | inr e ↦
          Kept-weaken _ _ _ _ _
            (old-add_client s.made c s.clients (λ same. absurd (cc (e, (==_iff c s.made).1 same))))
            (k.2 c)
    ],
  )

  IsSound-reply :
      (h : History M) (s : Server M) (m : M) (c : ℕ)
      → c < s.made
      → IsSound h s
      → IsSound (record h { offered = put_at c (h.offered c ++ m ∷ []) h.offered }) (send m c s)
  unfolding send
  IsSound-reply h s m c old k = (
    k.0,
    λ d late.
        let other : (d == c) ≡ false = ground (arith, old, late) in
        let fresh = k.1 d late in
        (fresh.0, if_false _ _ _ other ∙ fresh.1, if_false _ _ _ other ∙ fresh.2, fresh.3),
    λ d.
        if_both (λ channel offered. Kept (has_client d s.clients) (s.written d) channel offered)
          (d == c)
          (λ e.
            subst
              (λ x.
                Kept (has_client x s.clients) (s.written x) (offer m (s.channels c))
                  (h.offered c ++ m ∷ []))
              (sym ((==_iff d c).0 e)) (Kept-offer _ m _ _ _ (k.2 c)))
          (λ e. k.2 d),
  )

  IsSound-publish :
      (h : History M) (s : Server M) (m : M)
      → IsSound h s
      → IsSound (record h { offered = offered_each m s.clients h.offered }) (broadcast m s)
  unfolding broadcast
  IsSound-publish h s m k =
      let h' : History M = record h { offered = offered_each m s.clients h.offered } in
      subst (IsSound h') (sym (send_each_lem m s.clients s)) (
        k.0,
        λ d late.
            let fresh = k.1 d late in
            (
              fresh.0,
              channels-send_each m s.clients s d k.0 ∙ if_false _ _ _ fresh.3 ∙ fresh.1,
              if_false _ _ _ fresh.3 ∙ fresh.2,
              fresh.3,
            ),
        λ d.
            subst (λ channel. Kept (has_client d s.clients) (s.written d) channel (h'.offered d))
              (sym (channels-send_each m s.clients s d k.0))
              (if_both
                (λ channel offered. Kept (has_client d s.clients) (s.written d) channel offered)
                (has_client d s.clients) (λ _. Kept-offer _ m _ _ _ (k.2 d)) (λ _. k.2 d)),
      )

  IsSound-pump :
      (h : History M) (s : Server M) (m : M) (rest : List M) (c : ℕ)
      → has_client c s.clients ≡ true
      → s.channels c ≡ m ∷ rest
      → IsSound h s
      → IsSound h (record s {
        channels = put_at c rest s.channels;
        written = put_at c (s.written c ++ m ∷ []) s.written;
      })
  IsSound-pump h s m rest c here e k = (
    k.0,
    λ d late.
        let fresh = k.1 d late in
        let other = apart c d s.clients here fresh.3 in
        (if_false _ _ _ other ∙ fresh.0, if_false _ _ _ other ∙ fresh.1, fresh.2, fresh.3),
    λ d.
        if_both (λ written channel. Kept (has_client d s.clients) written channel (h.offered d))
          (d == c)
          (λ same.
            subst (λ x. Kept (has_client x s.clients) (s.written c ++ m ∷ []) rest (h.offered x))
              (sym ((==_iff d c).0 same))
              (Kept-pump _ m _ _ _ (
                subst (λ ch. Kept (has_client c s.clients) (s.written c) ch (h.offered c)) e
                  (k.2 c))))
          (λ _. k.2 d),
  )

  -- The client leaves, with the message in hand or none.
  IsSound-fail :
      (h : History M) (s : Server M) (m : M) (rest : List M) (c : ℕ)
      → has_client c s.clients ≡ true
      → s.channels c ≡ m ∷ rest
      → IsSound h s
      → IsSound h (unregister c (record s { channels = put_at c rest s.channels }))
  unfolding unregister
  IsSound-fail h s m rest c here e k = (
    AreKeys-delete_client c s.clients k.0,
    λ d late.
        let fresh = k.1 d late in
        let other = apart c d s.clients here fresh.3 in
        (
          fresh.0,
          if_false _ _ _ other ∙ fresh.1,
          fresh.2,
          absent-delete_client c d s.clients fresh.3,
        ),
    λ d.
        if_cases
          (λ channel.
            Kept (has_client d (delete_client c s.clients)) (s.written d) channel (h.offered d))
          (d == c)
          (λ same.
            subst
              (λ x.
                Kept (has_client x (delete_client c s.clients)) (s.written x) rest (h.offered x))
              (sym ((==_iff d c).0 same))
              (Kept-weaken false _ _ _ _
                (λ back. absurd (cc (back, has_client-delete_same c s.clients)))
                (Kept-lost m _ _ _ (
                  subst (λ b. Kept b (s.written c) (m ∷ rest) (h.offered c)) here
                    (subst (λ ch. Kept (has_client c s.clients) (s.written c) ch (h.offered c)) e
                      (k.2 c))))))
          (λ _. Kept-weaken _ _ _ _ _ (has_client-delete_client c d s.clients) (k.2 d)),
  )

  IsSound-leave : (h : History M) (s : Server M) (c : ℕ) → IsSound h s → IsSound h (unregister c s)
  unfolding unregister
  IsSound-leave h s c k = (
    AreKeys-delete_client c s.clients k.0,
    λ d late.
        let fresh = k.1 d late in
        (fresh.0, fresh.1, fresh.2, absent-delete_client c d s.clients fresh.3),
    λ d. Kept-weaken _ _ _ _ _ (has_client-delete_client c d s.clients) (k.2 d),
  )

  module _ (max_clients : ℕ) where
    step-IsSound :
        {h : History M} {s : Server M} {h' : History M} {s' : Server M}
        → Step max_clients h s h' s'
        → IsSound h s
        → IsSound h' s'
    step-IsSound (Step.check low) k = k
    step-IsSound (Step.reject full) k = k
    step-IsSound (Step.accept_fails n e) k = k
    step-IsSound (Step.connect {h = h} {s = s} n e) k = IsSound-register h s n k
    step-IsSound (Step.reply {h = h} {s = s} m c old) k = IsSound-reply h s m c old k
    step-IsSound (Step.publish {h = h} {s = s} m) k = IsSound-publish h s m k
    step-IsSound (Step.pump {h = h} {s = s} m rest c here e) k = IsSound-pump h s m rest c here e k
    step-IsSound (Step.pump_fails {h = h} {s = s} m rest c here e) k =
        IsSound-fail h s m rest c here e k
    step-IsSound (Step.leave {h = h} {s = s} c) k = IsSound-leave h s c k

    Reachable-IsSound : (h : History M) (s : Server M) → Reachable max_clients h s → IsSound h s
    unfolding has_client
    Reachable-IsSound _ _ Reachable.start =
        (tt, λ c late. (refl, refl, refl, refl), λ c. Kept-none _ _ _ _ refl refl refl)
    Reachable-IsSound _ _ (Reachable.next {h = h} {s = s} r step) =
        step-IsSound step (Reachable-IsSound h s r)

    -- In every interleaving, what was written to a client and what waits in its channel is a part of what
    -- was offered to it, in the same order; the channel holds at most 32 messages; and while the client is
    -- in the hub and was offered no more than 32 messages, none of them is lost.
    pub Reachable-keeps_order :
        (h : History M) (s : Server M) (c : ℕ)
        → Reachable max_clients h s
        → Sublistᴰ (s.written c ++ s.channels c) (h.offered c)
          × (length (s.channels c) ≤ channel_size)
          × (has_client c s.clients ≡ true
              → length (h.offered c) ≤ channel_size
              → s.written c ++ s.channels c ≡ h.offered c)
    Reachable-keeps_order h s c r = (Reachable-IsSound h s r).2 c
