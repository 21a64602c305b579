-- ===== src/Glob/Search/Reached.antt =====
-- Reached pairs of positions: what the search knows of each pair in its queue, and that each of its
-- steps keeps it.
use intermute.Base.{
  ℕ, zero, suc, ◌≤◌, ◌<◌, ◌≡◌, refl, sym, subst, ap, ◌⊎◌, inl, inr, true, List, [], ◌∷◌, ◌++◌, some,
  none, arith, length, get_elem?, drop, Mem,
}
use intermute.Glob.Ranges.{In}
use intermute.Glob.Pattern.{Token, star, Tokens, token_ranges, Matches, leave}
use intermute.Glob.Search.{State, state, star_exits, star_at}
use intermute.Glob.Search.Grid.{grid, Mem-grid}
use intermute.Glob.Search.Steps.{
  Joint, next, get_elem?-drop, get_elem?-lt, star_at_lem, drop-next, next-le, Matches-eat,
}

pub get_elem?-Mem : (l : List State) (k : ℕ) (x : State) → get_elem? l k ≡ some x → Mem x l
get_elem?-Mem [] k x h = cc
get_elem?-Mem (y ∷ l) zero x h = inl (ground arith)
get_elem?-Mem (y ∷ l) (suc k) x h = inr (get_elem?-Mem l k x h)

pub Mem-get_elem? :
    (l : List State) (x : State) → Mem x l → (k : ℕ) × (k < length l) × (get_elem? l k ≡ some x)
Mem-get_elem? [] x m = absurd m
Mem-get_elem? (y ∷ l) x (inl e) = (0, omega arith, ap some (sym e))
Mem-get_elem? (y ∷ l) x (inr m) = let (k, h, e) = Mem-get_elem? l x m in (suc k, omega arith, e)

pub get_elem?-none : (l : List State) (k : ℕ) → get_elem? l k ≡ none → length l ≤ k
get_elem?-none [] k h = omega arith
get_elem?-none (y ∷ l) zero h = absurd (ground arith)
get_elem?-none (y ∷ l) (suc k) h = omega (arith, get_elem?-none l k h)

pub get_elem?-append :
    (l m : List State) (k : ℕ) → k < length l → get_elem? (l ++ m) k ≡ get_elem? l k
get_elem?-append [] m k h = absurd (omega arith)
get_elem?-append (y ∷ l) m zero h = refl
get_elem?-append (y ∷ l) m (suc k) h = get_elem?-append l m k (omega arith)

pub get_elem?-bound : (l : List State) (k : ℕ) (x : State) → get_elem? l k ≡ some x → k < length l
get_elem?-bound [] k x h = cc
get_elem?-bound (y ∷ l) zero x h = omega arith
get_elem?-bound (y ∷ l) (suc k) x h = omega (arith, get_elem?-bound l k x h)

module _ (a b : Tokens) where
  -- A reached pair: within both lists, and a common text from it on gives one of the whole.
  pub record Reached (x : State) : Type 0 where
    pub left : x.i ≤ length a
    pub right : x.j ≤ length b
    pub joins : Joint (drop x.i a) (drop x.j b) → Joint a b

  pub Reached-grid : (x : State) → Reached x → Mem x (grid (length a) (length b))
  Reached-grid x r = Mem-grid (length a) (length b) x.i x.j r.left r.right

  exit_left-Reached : (x : State) → Reached x → star_at a x.i ≡ true → Reached (state (suc x.i) x.j)
  exit_left-Reached x r h =
      let e = star_at_lem a x.i h in
      record {
        left = get_elem?-lt a x.i star e;
        right = r.right;
        joins = λ w.
            r.joins (
              w.0,
              subst (λ p. Matches p w.0) (sym (get_elem?-drop a x.i star e)) (leave w.1),
              w.2,
            );
      }

  exit_right-Reached :
      (x : State) → Reached x → star_at b x.j ≡ true → Reached (state x.i (suc x.j))
  exit_right-Reached x r h =
      let e = star_at_lem b x.j h in
      record {
        left = r.left;
        right = get_elem?-lt b x.j star e;
        joins = λ w.
            r.joins (
              w.0,
              w.1,
              subst (λ p. Matches p w.0) (sym (get_elem?-drop b x.j star e)) (leave w.2),
            );
      }

  pub star_exits_cases :
      (x y : State)
      → Mem y (star_exits a b x)
      → ((star_at b x.j ≡ true) × (y ≡ state x.i (suc x.j)))
        ⊎ ((star_at a x.i ≡ true) × (y ≡ state (suc x.i) x.j))
  unfolding star_exits
  star_exits_cases x y m = ground arith

  pub star_exits-Reached : (x y : State) → Reached x → Mem y (star_exits a b x) → Reached y
  star_exits-Reached x y r m = elim (star_exits_cases x y m) [
    | inl (h, e) ↦ subst Reached (sym e) (exit_right-Reached x r h)
    | inr (h, e) ↦ subst Reached (sym e) (exit_left-Reached x r h)
  ]

  pub Mem-exit_left :
      (x : State) → star_at a x.i ≡ true → Mem (state (suc x.i) x.j) (star_exits a b x)
  unfolding star_exits
  Mem-exit_left x h = ground arith

  pub Mem-exit_right :
      (x : State) → star_at b x.j ≡ true → Mem (state x.i (suc x.j)) (star_exits a b x)
  unfolding star_exits
  Mem-exit_right x h = ground arith

  pub consumed-Reached :
      (x : State) (t u : Token) (c : ℕ)
      → Reached x
      → get_elem? a x.i ≡ some t
      → get_elem? b x.j ≡ some u
      → In c (token_ranges t)
      → In c (token_ranges u)
      → Reached (state (next t x.i) (next u x.j))
  consumed-Reached x t u c r et eu ht hu = record {
    left = next-le a x.i t et;
    right = next-le b x.j u eu;
    joins = λ w. r.joins (
      c ∷ w.0,
      subst (λ p. Matches p (c ∷ w.0)) (sym (get_elem?-drop a x.i t et))
          (Matches-eat t _ c w.0 ht (subst (λ p. Matches p w.0) (drop-next a x.i t et) w.1)),
      subst (λ p. Matches p (c ∷ w.0)) (sym (get_elem?-drop b x.j u eu))
          (Matches-eat u _ c w.0 hu (subst (λ p. Matches p w.0) (drop-next b x.j u eu) w.2)),
    );
  }
