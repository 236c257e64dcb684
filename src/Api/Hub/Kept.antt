-- ===== src/Api/Hub/Kept.antt =====
-- internal/ws/server.go: what was written to a client and what waits in its channel, against what was
-- offered to it.
use raku_sika_hub.Prelude.{
  ◌≤◌, ◌≡◌, sym, ap, ◌∙◌, Bool, true, false, List, [], ◌∷◌, ◌++◌, length, ltb, arith, if_cases,
  length-append,
}
use mathlib.Core.List.{append-nil, append_assoc, Sublistᴰ}
use mathlib.Core.List.Sublistᴰ
use mathlib.Core.Path.{subst}
use raku_sika_hub.Api.Hub.{channel_size, offer}

module _ {M : Type 0} where
  -- In order, nothing new, never more than the channel holds, and nothing lost while the client is there
  -- and was offered no more than the channel holds.
  abbrev pub Kept : Bool → List M → List M → List M → Type 0
  Kept here written channel offered =
      Sublistᴰ (written ++ channel) offered
      × (length channel ≤ channel_size)
      × (here ≡ true → length offered ≤ channel_size → written ++ channel ≡ offered)

  pub Kept-none :
      (here : Bool) (written channel offered : List M)
      → written ≡ []
      → channel ≡ []
      → offered ≡ []
      → Kept here written channel offered
  Kept-none here written channel offered w c o =
      let same : written ++ channel ≡ offered = cc (w, c, o) in
      (
        subst (Sublistᴰ (written ++ channel)) same (Sublistᴰ.refl (written ++ channel)),
        omega (arith, ap length c),
        λ _ _. same,
      )

  pub Kept-weaken :
      (here here' : Bool) (written channel offered : List M)
      → (here' ≡ true → here ≡ true)
      → Kept here written channel offered
      → Kept here' written channel offered
  Kept-weaken here here' written channel offered f k = (k.0, k.1, λ h. k.2 (f h))

  pub Kept-offer :
      (here : Bool) (m : M) (written channel offered : List M)
      → Kept here written channel offered
      → Kept here written (offer m channel) (offered ++ m ∷ [])
  unfolding offer
  Kept-offer here m written channel offered k =
      let grown = length-append offered (m ∷ []) in
      let all = length-append written channel in
      if_cases (λ r. Kept here written r (offered ++ m ∷ [])) (ltb (length channel) channel_size)
        (λ room. (
          subst (λ l. Sublistᴰ l (offered ++ m ∷ [])) (append_assoc written channel (m ∷ []))
              (Sublistᴰ.append k.0 (Sublistᴰ.refl (m ∷ []))),
          ground (arith, room, length-append channel (m ∷ [])),
          λ h few.
              sym (append_assoc written channel (m ∷ []))
              ∙ ap (λ l. l ++ m ∷ []) (k.2 h (omega (arith, few, grown))),
        ))
        (λ full. (
          subst (λ l. Sublistᴰ l (offered ++ m ∷ [])) (append-nil (written ++ channel))
              (Sublistᴰ.append k.0 (Sublistᴰ.nil-sublist (m ∷ []))),
          k.1,
          λ h few.
              let few' : length offered ≤ channel_size = omega (arith, few, grown) in
              absurd (ground (arith, full, few, grown, all, ap length (k.2 h few'))),
        ))

  pub Kept-pump :
      (here : Bool) (m : M) (written rest offered : List M)
      → Kept here written (m ∷ rest) offered
      → Kept here (written ++ m ∷ []) rest offered
  Kept-pump here m written rest offered k =
      let same = append_assoc written (m ∷ []) rest in
      (
        subst (λ l. Sublistᴰ l offered) (sym same) k.0,
        omega (arith, k.1),
        λ h few. same ∙ k.2 h few,
      )

  -- The message that the pump fails to write is lost with the client.
  pub Kept-lost :
      (m : M) (written rest offered : List M)
      → Kept true written (m ∷ rest) offered
      → Kept false written rest offered
  Kept-lost m written rest offered k = (
    Sublistᴰ.trans (Sublistᴰ.append (Sublistᴰ.refl written) (Sublistᴰ.cons (Sublistᴰ.refl rest)))
        k.0,
    omega (arith, k.1),
    λ h. absurd (cc),
  )
