-- ===== src/Api/Hub/Limit.antt =====
-- internal/ws/server.go: the limit of the number of clients.
use raku_sika_hub.Prelude.{ℕ, suc, ◌+◌, ◌-◌, ◌≤◌, ap, List, [], ◌∷◌, length, arith}
use raku_sika_hub.Api.Hub.Keys.{send_each_lem}
use raku_sika_hub.Api.Hub.{
  Server, History, Step, Reachable, add_client, delete_client, register, unregister, send,
  broadcast,
}

length-add_client : (c : ℕ) (ds : List ℕ) → length (add_client c ds) ≤ suc (length ds)
unfolding add_client
length-add_client c ds = ground arith

length-delete_client : (c : ℕ) (ds : List ℕ) → length (delete_client c ds) ≤ length ds
unfolding delete_client
length-delete_client c [] = omega arith
length-delete_client c (d ∷ ds) = ground (arith, length-delete_client c ds)

module _ {M : Type 0} where
  module _ (max_clients : ℕ) where
    abbrev IsLimited : History M → Server M → Type 0
    IsLimited h s = length s.clients + s.accepting ≤ max_clients + (h.peak - 1)

    step-IsLimited :
        {h : History M} {s : Server M} {h' : History M} {s' : Server M}
        → Step max_clients h s h' s'
        → IsLimited h s
        → IsLimited h' s'
    unfolding register unregister send broadcast
    step-IsLimited (Step.check {s = s} low) l = omega (arith, l, low)
    step-IsLimited (Step.reject full) l = l
    step-IsLimited (Step.accept_fails n e) l = omega (arith, l, e)
    step-IsLimited (Step.connect {s = s} n e) l =
        omega (arith, l, e, length-add_client s.made s.clients)
    step-IsLimited (Step.reply m c old) l = l
    step-IsLimited (Step.publish {s = s} m) l =
        let same = send_each_lem m s.clients s in
        omega (arith, l, ap (λ t. length t.clients) same, ap (λ t. t.accepting) same)
    step-IsLimited (Step.pump m rest c here e) l = l
    step-IsLimited (Step.pump_fails {s = s} m rest c here e) l =
        omega (arith, l, length-delete_client c s.clients)
    step-IsLimited (Step.leave {s = s} c) l = omega (arith, l, length-delete_client c s.clients)

    -- With at most k requests at a time between the check of the limit and Register, the hub has at most
    -- k - 1 clients more than the limit; so it keeps the limit when requests come one by one.
    pub Reachable-IsLimited :
        (h : History M) (s : Server M)
        → Reachable max_clients h s
        → length s.clients + s.accepting ≤ max_clients + (h.peak - 1)
    Reachable-IsLimited _ _ Reachable.start = omega arith
    Reachable-IsLimited _ _ (Reachable.next {h = h} {s = s} r step) =
        step-IsLimited step (Reachable-IsLimited h s r)
