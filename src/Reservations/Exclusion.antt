-- ===== src/Reservations/Exclusion.antt =====
-- Exclusion: no two agents hold overlapping reservations of which one is exclusive.
use intermute.Base.{
  ℕ, ◌≡◌, ◌≢◌, sym, ◌∙◌, subst, ◌⊎◌, inl, inr, Bool, true, false, not, ◌&&◌, List, [], ◌∷◌, ◌++◌,
  map, filter, if◌then◌else◌, Text, text_eq_iff, Result, ok, err, ◌>>=◌, arith, All, All-filter,
  All-append, Bool-cases, if_cases,
}
use intermute.Stamp.{stamp_lt}
use mathlib.Core.Bool.{false≢true}
use intermute.Glob.Parse.{GlobError}
use intermute.Glob.Paths.{patterns_overlap}
use intermute.Glob.Paths.Overlap.{patterns_overlap_comm}
use intermute.Reservations.Table.{Reservation, Db, is_unreleased, is_active, of_project, of_agent}
use intermute.Reservations.{
  Request, StoreError, ConflictDetail, reserve, added, new_row, sweep_row, sweep_project, rivals,
  collect_conflicts, detail, or_overlap_check, release_reservation, release_row,
}
use intermute.Reservations.Accepted.{Accepts, reserve_ok}

-- Two held reservations of one project, by different agents, of which one is exclusive, match no
-- common path.
abbrev pub Apart : Reservation → Reservation → Type 0
Apart r s =
    is_unreleased r ≡ true
    → is_unreleased s ≡ true
    → r.project ≡ s.project
    → r.agent_id ≢ s.agent_id
    → (r.exclusive ≡ true) ⊎ (s.exclusive ≡ true)
    → patterns_overlap r.path_pattern s.path_pattern ≡ ok false

abbrev pub AllApart : List Reservation → Type 0
AllApart [] = Unit {0}
AllApart (r ∷ rows) = All (Apart r) rows × AllApart rows

-- An update that only releases rows.
abbrev pub OnlyReleases : (Reservation → Reservation) → Type 0
OnlyReleases f = (r : Reservation) → is_unreleased (f r) ≡ true → f r ≡ r

Apart-map :
    (f : Reservation → Reservation)
    → OnlyReleases f
    → (r s : Reservation) → Apart r s
    → Apart (f r) (f s)
Apart-map f only r s h ur us =
    let er = sym (only r ur) in
    let es = sym (only s us) in
    subst (λ x. (is_unreleased x ≡ true → is_unreleased (f s) ≡ true → Rest x (f s))) er
      (λ vr. subst (λ y. (is_unreleased y ≡ true → Rest r y)) es (λ vs. h vr vs)) ur us
  where
    Rest : Reservation → Reservation → Type 0
    Rest x y =
        x.project ≡ y.project
        → x.agent_id ≢ y.agent_id
        → (x.exclusive ≡ true) ⊎ (y.exclusive ≡ true)
        → patterns_overlap x.path_pattern y.path_pattern ≡ ok false

All-map :
    (f : Reservation → Reservation) (P Q : Reservation → Type 0)
    → ((s : Reservation) → P s → Q (f s))
    → (rows : List Reservation) → All P rows
    → All Q (map f rows)
All-map f P Q k [] h = tt
All-map f P Q k (s ∷ rows) h = (k s h.0, All-map f P Q k rows h.1)

-- Releasing rows keeps the others apart.
pub AllApart-map :
    (f : Reservation → Reservation)
    → OnlyReleases f
    → (rows : List Reservation) → AllApart rows
    → AllApart (map f rows)
AllApart-map f only [] h = tt
AllApart-map f only (r ∷ rows) h =
    (All-map f (Apart r) (Apart (f r)) (Apart-map f only r) rows h.0, AllApart-map f only rows h.1)

-- So does deleting rows.
pub AllApart-filter :
    (p : Reservation → Bool) (rows : List Reservation) → AllApart rows → AllApart (filter p rows)
AllApart-filter p [] h = tt
AllApart-filter p (r ∷ rows) h =
    if_cases AllApart (p r) _ _ (λ _. (All-filter (Apart r) p rows h.0, AllApart-filter p rows h.1))
      (λ _. AllApart-filter p rows h.1)

AllApart-snoc :
    (rows : List Reservation) (x : Reservation)
    → AllApart rows
    → All (λ s. Apart s x) rows
    → AllApart (rows ++ x ∷ [])
AllApart-snoc [] x h k = (tt, tt)
AllApart-snoc (r ∷ rows) x h k =
    (All-append (Apart r) rows (x ∷ []) h.0 (k.0, tt), AllApart-snoc rows x h.1 k.1)

pub sweep_row-OnlyReleases : (project : Text) (now : ℕ) → OnlyReleases (sweep_row project now)
unfolding sweep_row
sweep_row-OnlyReleases project now r h = ground arith

pub release_row-OnlyReleases : (id agent : Text) (now : ℕ) → OnlyReleases (release_row id agent now)
unfolding release_row
release_row-OnlyReleases id agent now r h = ground arith

-- The reservation that a request asks for conflicts with no row that the loop passes over.
abbrev Passed : Text → Bool → Reservation → Type 0
Passed pattern exclusive s =
    ((exclusive ≡ false) × (s.exclusive ≡ false))
    ⊎ (patterns_overlap pattern s.path_pattern ≡ ok false)

collect_conflicts_step :
    (db : Db) (pattern : Text) (exclusive : Bool) (s : Reservation) (rows : List Reservation)
    → collect_conflicts db pattern exclusive (s ∷ rows) ≡ ok []
    → Passed pattern exclusive s × (collect_conflicts db pattern exclusive rows ≡ ok [])
unfolding collect_conflicts
collect_conflicts_step db pattern exclusive s rows h =
    go (patterns_overlap pattern s.path_pattern) (collect_conflicts db pattern exclusive rows) h
  where
    go :
        (o : Result GlobError Bool) (rest : Result StoreError (List ConflictDetail))
        → (if not exclusive && not s.exclusive
            then rest
            else or_overlap_check o >>= λ overlap.
                if overlap then rest >>= (λ conflicts. ok (detail db s ∷ conflicts)) else rest)
          ≡ ok []
        → (((exclusive ≡ false) × (s.exclusive ≡ false)) ⊎ (o ≡ ok false)) × (rest ≡ ok [])
    go (ok true) (ok cs) e = ground arith
    go (ok true) (err x) e = ground arith
    go (ok false) rest e = ground arith
    go (err x) rest e = ground arith

-- After the sweep a row that is still held is still active.
abbrev pub Settled : Text → ℕ → Reservation → Type 0
Settled project now s =
    is_unreleased s ≡ true → of_project project s ≡ true → stamp_lt now s.expires_at ≡ true

sweep_row-Settled :
    (project : Text) (now : ℕ) (s : Reservation) → Settled project now (sweep_row project now s)
unfolding sweep_row
sweep_row-Settled project now s u o = ground arith

pub sweep_project-Settled :
    (project : Text) (now : ℕ) (rows : List Reservation)
    → All (Settled project now) (sweep_project project now rows)
unfolding sweep_project
sweep_project-Settled project now [] = tt
sweep_project-Settled project now (s ∷ rows) =
    (sweep_row-Settled project now s, sweep_project-Settled project now rows)

module _ (db : Db) (new_id : Text) (now : ℕ) (r : Request) where
  Passed-Apart :
      (s : Reservation) → Passed r.path_pattern r.exclusive s → Apart s (new_row new_id now r)
  unfolding new_row
  Passed-Apart s (inr e) _ _ _ _ _ = patterns_overlap_comm s.path_pattern r.path_pattern ∙ e
  Passed-Apart s (inl (e, f)) _ _ _ _ (inl x) = absurd (false≢true (sym f ∙ x))
  Passed-Apart s (inl (e, f)) _ _ _ _ (inr x) = absurd (false≢true (sym e ∙ x))

  -- A row that the query leaves out is released, of another project or the agent's own.
  left_out-Apart :
      (s : Reservation)
      → Settled r.project now s
      → (of_project r.project s && (is_active now s && not (of_agent r.agent_id s))) ≡ false
      → Apart s (new_row new_id now r)
  unfolding new_row
  left_out-Apart s k h us _ ep ea _ =
      let p = (text_eq_iff s.project r.project).1 ep in
      absurd (ground (arith, k us p, text_eq_iff s.agent_id r.agent_id))

  no_conflict-Apart :
      (rows : List Reservation)
      → All (Settled r.project now) rows
      → collect_conflicts db r.path_pattern r.exclusive (rivals r.agent_id r.project now rows)
        ≡ ok []
      → All (λ s. Apart s (new_row new_id now r)) rows
  unfolding rivals
  no_conflict-Apart [] k h = tt
  no_conflict-Apart (s ∷ rows) k h = elim (Bool-cases (chosen s)) [
    | inl yes' ↦
        let (p, q) = collect_conflicts_step db r.path_pattern r.exclusive s _ (picked yes') in
        (Passed-Apart s p, no_conflict-Apart rows k.1 q)
    | inr no' ↦ (left_out-Apart s k.0 no', no_conflict-Apart rows k.1 (skipped no'))
  ]
    where
      chosen : Reservation → Bool
      chosen t = of_project r.project t && (is_active now t && not (of_agent r.agent_id t))

      picked :
          chosen s ≡ true
          → collect_conflicts db r.path_pattern r.exclusive (s ∷ filter chosen rows) ≡ ok []
      picked e = rw e at h

      skipped :
          chosen s ≡ false
          → collect_conflicts db r.path_pattern r.exclusive (filter chosen rows) ≡ ok []
      skipped e = rw e at h

added-AllApart :
    (new_id : Text) (now : ℕ) (r : Request) (db : Db)
    → AllApart db.reservations
    → Accepts new_id now r db
    → AllApart (added new_id now r db).reservations
unfolding added
added-AllApart new_id now r db apart a =
    AllApart-snoc (sweep_project r.project now db.reservations) (new_row new_id now r) (swept apart)
      (no_conflict-Apart db new_id now r _ (sweep_project-Settled r.project now db.reservations)
        a.no_conflict)
  where
    swept : AllApart db.reservations → AllApart (sweep_project r.project now db.reservations)
    swept =
        unfold sweep_project in
        AllApart-map _ (sweep_row-OnlyReleases r.project now) db.reservations

-- `Reserve` keeps held reservations apart: two agents of one project never hold reservations that
-- match a common path if one of the two is exclusive.
pub reserve-AllApart :
    (new_id : Text) (now : ℕ) (r : Request) (db db' : Db) (row : Reservation)
    → AllApart db.reservations
    → reserve new_id now r db ≡ ok (db', row)
    → AllApart db'.reservations
reserve-AllApart new_id now r db db' row apart h =
    let (a, e, _) = reserve_ok new_id now r db db' row h in
    subst (λ d. AllApart d.reservations) (sym e) (added-AllApart new_id now r db apart a)

-- `ReleaseReservation` keeps them apart too.
pub release_reservation-AllApart :
    (id agent : Text) (now : ℕ) (db db' : Db)
    → AllApart db.reservations
    → release_reservation id agent now db ≡ ok db'
    → AllApart db'.reservations
unfolding release_reservation
release_reservation-AllApart id agent now db db' apart h =
    subst (λ (rows : List Reservation). AllApart rows) (released_rows h)
      (AllApart-map _ (release_row-OnlyReleases id agent now) db.reservations apart)
  where
    released_rows :
        release_reservation id agent now db ≡ ok db'
        → map (release_row id agent now) db.reservations ≡ db'.reservations
    released_rows e = ground arith
