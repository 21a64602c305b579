-- ===== src/Glob/Search.antt =====
-- `segmentTokensOverlap` of internal/glob/overlap.go: a breadth-first search over pairs of positions
-- in two token lists. A pair is reached when some text is consumed on both sides up to it.
pub mod Grid
pub mod Closure
pub mod Steps
pub mod Reached
pub mod Loop
use intermute.Base.{
  ℕ, zero, suc, ◌+◌, ◌*◌, Bool, true, false, ◌&&◌, ◌||◌, Option, none, some, List, [], ◌∷◌, ◌++◌,
  ◌≡◌, refl, ◌==◌, if◌then◌else◌, length, get_elem?,
}
use intermute.Glob.Ranges.{Ranges, range, ranges_overlap}
use intermute.Glob.Pattern.{literal, star, Tokens, token_consume}

pub record State : Type 0 where
  pub i : ℕ
  pub j : ℕ

abbrev pub state : ℕ → ℕ → State
state i j = record { i = i; j = j }

-- `seen` is the map's key set.
pub record Frontier : Type 0 where
  pub seen : List State
  pub queue : List State

-- A search that runs out of fuel or reads past a token list says so; neither happens.
pub data Fault : Type 0 where
  out_of_fuel index_panic : Fault

pub data Verdict : Type 0 where
  answer : Bool → Verdict
  fault : Fault → Verdict

unfoldable pub is_seen : State → List State → Bool
is_seen x [] = false
is_seen x (y ∷ ys) = (x.i == y.i && x.j == y.j) || is_seen x ys

-- How one round of the main loop ends.
pub data Round : Type 0 where
  found : Round
  onward : Frontier → Round
  broken : Fault → Round

pub after_closure : Option Frontier → Round
after_closure none = broken out_of_fuel
after_closure (some f) = onward f

-- `i < len(tokens) && tokens[i].kind == tokenStar`
pub star_at : Tokens → ℕ → Bool
star_at tokens i = elim (get_elem? tokens i) [ some star ↦ true | _ ↦ false ]

module _ (a b : Tokens) where
  -- The states that a star may be left to, the last pushed one first.
  pub star_exits : State → List State
  unfolding star_at
  star_exits c =
      (if star_at b c.j then state c.i (suc c.j) ∷ [] else [])
      ++ (if star_at a c.i then state (suc c.i) c.j ∷ [] else [])

  -- `addClosure`: the stack's top is the list's head.
  pub add_closure : ℕ → List State → Frontier → Option Frontier
  add_closure fuel [] f = some f
  add_closure zero (curr ∷ stack) f = none
  add_closure (suc fuel) (curr ∷ stack) f =
      let skip = add_closure fuel stack f in
      let visit =
        add_closure fuel (star_exits curr ++ stack)
          (record { seen = curr ∷ f.seen; queue = f.queue ++ curr ∷ [] }) in
      if is_seen curr f.seen then skip else visit

  -- Enough for every call: each visited pair pushes two at most.
  pub closure_fuel : ℕ
  closure_fuel = 3 * ((length a + 1) * (length b + 1)) + 1

  -- The end of the loop's body, on both results of `tokenConsume`.
  pub advance : Frontier → Option (ℕ × Ranges) → Option (ℕ × Ranges) → Round
  advance f none _ = broken index_panic
  advance f (some _) none = broken index_panic
  advance f (some (a_next, a_ranges)) (some (b_next, b_ranges)) =
      if ranges_overlap a_ranges b_ranges
      then after_closure (add_closure closure_fuel (state a_next b_next ∷ []) f)
      else onward f

  pub visit : State → Frontier → Round
  visit curr f =
      if curr.i == length a && curr.j == length b
      then found
      else if curr.i == length a || curr.j == length b
      then onward f
      else advance f (token_consume a curr.i) (token_consume b curr.j)

  pub after_round : Round → (Frontier → Verdict) → Verdict
  after_round found next = answer true
  after_round (onward f) next = next f
  after_round (broken e) next = fault e

  -- `for idx := 0; idx < len(queue); idx++`
  pub loop : ℕ → ℕ → Frontier → Verdict
  loop zero idx f = fault out_of_fuel
  loop (suc fuel) idx f = elim (get_elem? f.queue idx) [
    | none ↦ answer false
    | some curr ↦ after_round (visit curr f) (loop fuel (suc idx))
  ]

  -- One round for each pair of positions, and one to find the queue at its end.
  pub loop_fuel : ℕ
  loop_fuel = (length a + 1) * (length b + 1) + 1

  pub start : Option Frontier → Verdict
  start none = fault out_of_fuel
  start (some f) = loop loop_fuel 0 f

  unfoldable pub segment_tokens_overlap : Verdict
  unfolding is_seen star_exits add_closure closure_fuel after_closure advance visit after_round loop
      loop_fuel start token_consume ranges_overlap
  segment_tokens_overlap =
      start (add_closure closure_fuel (state 0 0 ∷ []) (record { seen = []; queue = [] }))
