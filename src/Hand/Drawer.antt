-- ===== src/Hand/Drawer.antt =====
-- What an update of the drawer guarantees.
use bhidne_ho.Prelude.{
  ◌≤◌, true, Option, none, some, String, ◌≡◌, ◌⊎◌, ◌↔◌, refl, arith, eq_iff, eq_refl, ◌∙◌,
}
use bhidne_ho.Hand.{
  PendingCard, HandDrawerState, HandDrawerInput, in_hand, for_deal, resolve, enter,
  update_hand_drawer,
}

enter_of_pending :
    (t : Option String) (s : HandDrawerState) (p : PendingCard) → s.pending ≡ some p → enter t s ≡ s
enter_of_pending none s p h = refl
enter_of_pending (some t) s p h = ground arith

-- While a deal goes on, a played card stays pending, and the drawer, its entered turn and its deal stay
-- as they are, exactly until the card is gone from a hand of a later revision or an error is reported
-- while no action is under way.
pub update_hand_drawer-pending_iff :
    (s : HandDrawerState) (i : HandDrawerInput) (p : PendingCard)
    → s.deal ≡ i.deal
    → s.pending ≡ some p
    → (update_hand_drawer s i ≡ s) ↔ (
        ((i.revision ≤ p.revision) ⊎ (in_hand p.card i.hand ≡ true))
        × ((i.busy ≡ true) ⊎ (i.error ≡ "")))
unfolding update_hand_drawer
update_hand_drawer-pending_iff s i p d h =
    ground (arith, eq_iff s.deal i.deal, eq_iff i.error "", enter_of_pending i.turn s p h)

for_deal-deal : (i : HandDrawerInput) (s : HandDrawerState) → (for_deal i s).deal ≡ i.deal
unfolding for_deal
for_deal-deal i s = ground (arith, eq_iff s.deal i.deal)

for_deal_same : (i : HandDrawerInput) (s : HandDrawerState) → s.deal ≡ i.deal → for_deal i s ≡ s
unfolding for_deal
for_deal_same i s h = ground (arith, eq_iff s.deal i.deal)

-- One round of an update after the deal is settled.
abbrev settle : HandDrawerInput → HandDrawerState → HandDrawerState
settle i s = enter i.turn (resolve i s.pending s)

settle-deal :
    (i : HandDrawerInput) (t : Option String) (q : Option PendingCard) (s : HandDrawerState)
    → (enter t (resolve i q s)).deal ≡ s.deal
settle-deal i none none s = refl
settle-deal i none (some q) s = ground arith
settle-deal i (some t) none s = ground arith
settle-deal i (some t) (some q) s = ground arith

settle_idem :
    (i : HandDrawerInput) (t : Option String) (q : Option PendingCard) (s : HandDrawerState)
    → i.turn ≡ t
    → s.pending ≡ q
    → settle i (settle i s) ≡ settle i s
settle_idem i none none s e f = ground arith
settle_idem i none (some q) s e f = ground arith
settle_idem i (some t) none s e f = ground (arith, eq_refl t)
settle_idem i (some t) (some q) s e f = ground (arith, eq_refl t)

-- An update is settled: the same input a second time changes nothing.
pub update_hand_drawer_idem :
    (s : HandDrawerState) (i : HandDrawerInput)
    → update_hand_drawer (update_hand_drawer s i) i ≡ update_hand_drawer s i
unfolding update_hand_drawer
update_hand_drawer_idem s i =
    let f = for_deal i s in
    let same : (settle i f).deal ≡ i.deal = settle-deal i i.turn f.pending f ∙ for_deal-deal i s in
    rw (for_deal_same i (settle i f) same) (settle_idem i i.turn f.pending f refl refl)
