-- ===== src/Contact/Filter.antt =====
-- What the contact policies let through: internal/http/handlers_messages.go.
use intermute.Base.{
  Bool, true, not, List, [], ◌∷◌, ◌≡◌, ◌↔◌, ◌⊎◌, inl, inr, refl, sym, subst, ◌∙◌, ap, if◌then◌else◌,
  filter, Mem, if_cases, Bool-cases, Text, arith,
}
use intermute.Contact.{Lookups, passes, partition, filter_by_policy}
use intermute.Contact.Policies.{Welcome, passes-Welcome, Welcome-passes}

pub partition-filter :
    (p : Text → Bool) (rs : List Text) → partition p rs ≡ (filter p rs, filter (λ r. not (p r)) rs)
unfolding partition
partition-filter p [] = refl
partition-filter p (r ∷ rs) = rw (partition-filter p rs) (ground arith)

pub partition-allowed :
    (p : Text → Bool) (rs : List Text) (r : Text)
    → Mem r (partition p rs).0
    → Mem r rs × (p r ≡ true)
unfolding partition
partition-allowed p [] r h = elim h [ ]
partition-allowed p (x ∷ rs) r h = elim (Bool-cases (p x)) [
  | inl e ↦ first (λ m. partition-allowed p rs r m) e (subst side e h)
  | inr e ↦ let rest = partition-allowed p rs r (subst side e h) in (inr rest.0, rest.1)
]
  where
    split : Bool → List Text × List Text
    split b =
        if b
        then (x ∷ (partition p rs).0, (partition p rs).1)
        else ((partition p rs).0, x ∷ (partition p rs).1)

    side : Bool → Type 0
    side b = Mem r (split b).0

    first :
        (Mem r (partition p rs).0 → Mem r rs × (p r ≡ true))
        → p x ≡ true
        → Mem r (x ∷ (partition p rs).0)
        → ((r ≡ x) ⊎ Mem r rs) × (p r ≡ true)
    first ih e (inl q) = (inl q, ap p q ∙ e)
    first ih e (inr m) = (inr (ih m).0, (ih m).1)

pub partition-keeps :
    (p : Text → Bool) (rs : List Text) (r : Text) → Mem r rs → p r ≡ true → Mem r (partition p rs).0
unfolding partition
partition-keeps p [] r m h = elim m [ ]
partition-keeps p (x ∷ rs) r (inl q) h = let e : p x ≡ true = ap p (sym q) ∙ h in rw e (inl q)
partition-keeps p (x ∷ rs) r (inr m) h =
    if_cases (λ (b : List Text × List Text). Mem r b.0) (p x) _ _
      (λ _. inr (partition-keeps p rs r m h)) (λ _. partition-keeps p rs r m h)

-- `filterByPolicy` allows exactly those of the recipients asked for whose policy lets the sender write: one whose
-- policy cannot be read or is neither block_all, contacts_only nor auto; under contacts_only and auto, one of whom the
-- lookups say that the sender is a contact, or that the thread is named and the sender takes part in it; under auto
-- also one whose reservations the lookup says overlap the sender's. A lookup of these that fails says no.
pub filter_by_policy-allowed :
    (s : Lookups) (sender thread_id r : Text) (rs : List Text)
    → Mem r (filter_by_policy s sender thread_id rs).0 ↔ (Mem r rs × Welcome s sender r thread_id)
unfolding filter_by_policy
filter_by_policy-allowed s sender thread_id r rs = (
  λ m.
      let allowed = partition-allowed (passes s sender thread_id) rs r m in
      (allowed.0, passes-Welcome s sender r thread_id allowed.1),
  λ w.
      partition-keeps (passes s sender thread_id) rs r w.0
        (Welcome-passes s sender r thread_id w.1),
)
