-- ===== src/Glob/Search/Loop.antt =====
-- The main loop of `segmentTokensOverlap`: it ends within its fuel, and its answer is right.
use intermute.Base.{
  ◌↔◌, ◌∙◌, ℕ, zero, suc, ◌+◌, ◌*◌, ◌≤◌, ◌<◌, ◌≡◌, ◌≢◌, refl, sym, subst, ap, ◌⊎◌, inl, inr, true,
  false, List, [], ◌∷◌, some, none, arith, length, get_elem?, drop, Mem, All, Bool-cases,
  Option-cases, append-nil, length-append,
}
use mathlib.Core.Bool.{false≢true}
use native.Mathlib.Decide.{ℕ_discrete}
use intermute.Glob.Ranges.{In, ranges_overlap}
use intermute.Glob.Ranges.Overlap.{ranges_overlap_iff}
use intermute.Glob.Pattern.{
  Token, star, Tokens, token_ranges, token_consume, Matches, empty, IsOrdered,
}
use intermute.Glob.Search.{
  State, state, Frontier, Verdict, answer, fault, Round, found, onward, star_exits, closure_fuel,
  after_closure, advance, visit, after_round, loop, loop_fuel, start, segment_tokens_overlap,
}
use intermute.Glob.Search.Grid.{grid, length-grid, unseen-nil, unseen-le-length}
use intermute.Glob.Search.Closure.{Consistent, room, Closed, add_closure_lem}
use intermute.Glob.Search.Steps.{
  Joint, next, rest, get_elem?-lt, drop-get_elem?, drop-length, drop-eq_nil, get_elem?-some,
  star_at-some, token_consume_lem, drop-next, IsClosed, no_common_text,
}
use intermute.Glob.Search.Reached.{
  Reached, Reached-grid, star_exits-Reached, Mem-exit_left, Mem-exit_right, consumed-Reached,
  get_elem?-Mem, Mem-get_elem?, get_elem?-none, get_elem?-append, get_elem?-bound,
}

-- The search ended with an answer, and the answer is right about `G`.
abbrev pub Decides : Type 0 → Verdict → Type 0
Decides G (answer true) = G
Decides G (answer false) = ¬ G
Decides G (fault _) = ⊥

module _ (a b : Tokens) (oa : All IsOrdered a) (ob : All IsOrdered b) where
  abbrev Steady : List State → Frontier → Frontier → Type 0
  Steady = Closed a b (Reached a b) (star_exits-Reached a b) (Reached-grid a b)

  abbrev Fine : Frontier → Type 0
  Fine = Consistent a b (Reached a b) (star_exits-Reached a b) (Reached-grid a b)

  abbrev space : Frontier → ℕ
  space = room a b (Reached a b) (star_exits-Reached a b) (Reached-grid a b)

  -- A pair whose round is over: it is not the end of both lists, and what it leads to is seen.
  record Processed (f : Frontier) (x : State) : Type 0 where
    unfinished : (x.i ≡ length a) → (x.j ≡ length b) → ⊥
    led :
        (t u : Token) (c : ℕ)
        → get_elem? a x.i ≡ some t
        → get_elem? b x.j ≡ some u
        → In c (token_ranges t)
        → In c (token_ranges u)
        → Mem (state (next t x.i) (next u x.j)) f.seen

  -- How a round on a reached pair ends.
  data Visited (f : Frontier) (x : State) : Round → Type 0 where
    at_end : x.i ≡ length a → x.j ≡ length b → Visited f x found
    passed : (g : Frontier) → Steady [] f g → Processed g x → Visited f x (onward g)

  AllExits : Frontier → Type 0
  AllExits f = (x y : State) → Mem x f.seen → Mem y (star_exits a b x) → Mem y f.seen

  stay : (f : Frontier) → Fine f → AllExits f → Steady [] f f
  unfolding AllExits
  stay f c h = record {
    consistent = c;
    exits = h;
    covers = λ x n. absurd n;
    grows = λ x m. m;
    new = [];
    extends = sym (append-nil f.queue);
    pays = omega arith;
  }

  ordered :
      (ts : Tokens) (i : ℕ) (t : Token) → All IsOrdered ts → get_elem? ts i ≡ some t → IsOrdered t
  ordered [] i t h e = cc
  ordered (x ∷ ts) zero t h e = subst IsOrdered {x = x} {y = t} (ground arith) h.0
  ordered (x ∷ ts) (suc i) t h e = ordered ts i t h.1 e

  visit_end : (f : Frontier) (x : State) → x.i ≡ length a → x.j ≡ length b → visit a b x f ≡ found
  unfolding visit
  visit_end f x h k = ground arith

  visit_edge :
      (f : Frontier) (x : State)
      → ((x.i ≡ length a) × (x.j ≢ length b)) ⊎ ((x.i ≢ length a) × (x.j ≡ length b))
      → visit a b x f ≡ onward f
  unfolding visit
  visit_edge f x h = ground arith

  visit_inside :
      (f : Frontier) (x : State)
      → x.i ≢ length a
      → x.j ≢ length b
      → visit a b x f ≡ advance a b f (token_consume a x.i) (token_consume b x.j)
  unfolding visit
  visit_inside f x h k = ground arith

  enough : (f : Frontier) → 3 * space f + 1 ≤ closure_fuel a b
  unfolding closure_fuel room
  enough f = omega (
    arith,
    unseen-le-length (grid (length a) (length b)) f.seen,
    length-grid (length a) (length b),
  )

  same :
      (l : Tokens) (i : ℕ) (v w : Token) → get_elem? l i ≡ some v → get_elem? l i ≡ some w → v ≡ w
  same l i v w p q = ground arith

  -- Both tokens consume a rune of their own ranges.
  advance_lem :
      (f : Frontier) (x : State) (t u : Token)
      → Fine f
      → AllExits f
      → Reached a b x
      → x.i ≢ length a
      → get_elem? a x.i ≡ some t
      → get_elem? b x.j ≡ some u
      → Visited f x
          (advance a b f (some (next t x.i, token_ranges t)) (some (next u x.j, token_ranges u)))
  unfolding advance AllExits after_closure
  advance_lem f x t u c h r ne et eu =
      elim (Bool-cases (ranges_overlap (token_ranges t) (token_ranges u))) [
        | inl meet ↦
            let (k, ht, hu) = share.0 meet in
            let target = consumed-Reached a b x t u k r et eu ht hu in
            let (g, e, cl) =
              add_closure_lem a b (Reached a b) (star_exits-Reached a b) (Reached-grid a b)
                (closure_fuel a b) (state (next t x.i) (next u x.j) ∷ []) f c
                (λ y m. elim m [ inl q ↦ subst (Reached a b) (sym q) target | inr n ↦ absurd n ])
                (λ y z my mz. inl (h y z my mz)) (enough f) in
            rw meet (
              rw (e, after_closure)
                (passed g (weaken g cl) (record {
                  unfinished = λ p q. ne p;
                  led = λ t' u' k' et' eu' _ _.
                      subst (λ w. Mem (state (next w x.i) (next u' x.j)) g.seen)
                        (same a x.i t t' et et')
                        (subst (λ w. Mem (state (next t x.i) (next w x.j)) g.seen)
                          (same b x.j u u' eu eu') (cl.covers _ (inl refl)));
                })))
        | inr part ↦ rw part (
            passed f (stay f c h) (record {
              unfinished = λ p q. ne p;
              led = λ t' u' k et' eu' ht hu. absurd (
                  false≢true (
                    sym part
                    ∙ share.1 (
                      k,
                      subst (λ w. In k (token_ranges w)) (sym (same a x.i t t' et et')) ht,
                      subst (λ w. In k (token_ranges w)) (sym (same b x.j u u' eu eu')) hu,
                    )));
            }))
      ]
    where
      share :
          (ranges_overlap (token_ranges t) (token_ranges u) ≡ true)
          ↔ ((c : ℕ) × In c (token_ranges t) × In c (token_ranges u))
      share = ranges_overlap_iff _ _ (ordered a x.i t oa et) (ordered b x.j u ob eu)

      weaken : (g : Frontier) → Steady (state (next t x.i) (next u x.j) ∷ []) f g → Steady [] f g
      weaken g cl = record {
        consistent = cl.consistent;
        exits = cl.exits;
        covers = λ y n. absurd n;
        grows = cl.grows;
        new = cl.new;
        extends = cl.extends;
        pays = cl.pays;
      }

  visit_lem :
      (f : Frontier) (x : State) → Fine f → AllExits f → Reached a b x → Visited f x (visit a b x f)
  visit_lem f x c h r = elim (ℕ_discrete x.i (length a)) [
    | yes p ↦ elim (ℕ_discrete x.j (length b)) [
      | yes q ↦ rw (visit_end f x p q) (at_end p q)
      | no q ↦ rw (visit_edge f x (inl (p, q))) (
          passed f (stay f c h) (record {
            unfinished = λ _ e. q e;
            led = λ t u k et eu _ _. absurd (omega (arith, get_elem?-lt a x.i t et));
          }))
    ]
    | no p ↦ elim (ℕ_discrete x.j (length b)) [
      | yes q ↦ rw (visit_edge f x (inr (p, q))) (
          passed f (stay f c h) (record {
            unfinished = λ e _. p e;
            led = λ t u k et eu _ _. absurd (omega (arith, get_elem?-lt b x.j u eu));
          }))
      | no q ↦
          let (t, et) = get_elem?-some a x.i (omega (arith, r.left)) in
          let (u, eu) = get_elem?-some b x.j (omega (arith, r.right)) in
          rw (visit_inside f x p q, token_consume_lem a x.i t et, token_consume_lem b x.j u eu)
            (advance_lem f x t u c h r p et eu)
    ]
  ]

  -- Before the round on `queue[idx]`.
  record LoopInv (idx : ℕ) (f : Frontier) : Type 0 where
    fine : Fine f
    exits : AllExits f
    first : Mem (state 0 0) f.seen
    done : (k : ℕ) (x : State) → k < idx → get_elem? f.queue k ≡ some x → Processed f x
    within : idx ≤ length f.queue

  abbrev Left : Frontier → Tokens → Tokens → Type 0
  Left f p q = (x : State) × Mem x f.seen × (drop x.i a ≡ p) × (drop x.j b ≡ q)

  Left-IsClosed :
      (f : Frontier)
      → Fine f
      → AllExits f
      → ((x : State) → Mem x f.seen → Processed f x)
      → IsClosed (Left f)
  unfolding AllExits
  Left-IsClosed f c h done = record {
    exit_left = λ p q (x, m, ep, eq).
        let (e, d) = drop-get_elem? a x.i star p ep in
        (state (suc x.i) x.j, h x _ m (Mem-exit_left a b x (star_at-some a x.i e)), d, eq);
    exit_right = λ p q (x, m, ep, eq).
        let (e, d) = drop-get_elem? b x.j star q eq in
        (state x.i (suc x.j), h x _ m (Mem-exit_right a b x (star_at-some b x.j e)), ep, d);
    eats = λ t u p q k (x, m, ep, eq) ht hu.
        let (e, d) = drop-get_elem? a x.i t p ep in
        let (e', d') = drop-get_elem? b x.j u q eq in
        (
          state (next t x.i) (next u x.j),
          (done x m).led t u k e e' ht hu,
          drop-next a x.i t e ∙ ap (rest t) d,
          drop-next b x.j u e' ∙ ap (rest u) d',
        );
    stops = λ (x, m, ep, eq).
        (done x m).unfinished (drop-eq_nil a x.i (c.good x m).left ep)
          (drop-eq_nil b x.j (c.good x m).right eq);
  }

  -- When the queue is used up, no text is common.
  LoopInv-refutes :
      (idx : ℕ) (f : Frontier) → LoopInv idx f → get_elem? f.queue idx ≡ none → ¬ Joint a b
  LoopInv-refutes idx f v e w =
      no_common_text (Left f) (Left-IsClosed f v.fine v.exits all_done)
        (state 0 0, v.first, refl, refl) w.1 w.2
    where
      all_done : (x : State) → Mem x f.seen → Processed f x
      all_done x m =
          let (k, h, p) = Mem-get_elem? f.queue x (v.fine.queued x m) in
          v.done k x (omega (arith, get_elem?-none f.queue idx e)) p

  some_eq : {x y : State} → some x ≡ some y → x ≡ y
  some_eq e = cc

  LoopInv-step :
      (idx : ℕ) (f g : Frontier) (x : State)
      → LoopInv idx f
      → get_elem? f.queue idx ≡ some x
      → Steady [] f g
      → Processed g x
      → LoopInv (suc idx) g
  unfolding AllExits
  LoopInv-step idx f g x v e s p = record {
    fine = s.consistent;
    exits = s.exits;
    first = s.grows _ v.first;
    done = done;
    within =
        omega (
          arith,
          ap length s.extends,
          length-append f.queue s.new,
          get_elem?-bound f.queue idx x e,
        );
  }
    where
      before :
          (k : ℕ) (y : State)
          → k < length f.queue
          → get_elem? g.queue k ≡ some y
          → get_elem? f.queue k ≡ some y
      before k y h q =
          sym (get_elem?-append f.queue s.new k h) ∙ subst (λ l. get_elem? l k ≡ some y) s.extends q

      mono : (y : State) → Processed f y → Processed g y
      mono y r = record {
        unfinished = r.unfinished;
        led = λ t u k et eu ht hu. s.grows _ (r.led t u k et eu ht hu);
      }

      done : (k : ℕ) (y : State) → k < suc idx → get_elem? g.queue k ≡ some y → Processed g y
      done k y h q = elim (ℕ_discrete k idx) [
        | yes here ↦
            subst (Processed g)
              (some_eq (
                sym e
                ∙ subst (λ n. get_elem? f.queue n ≡ some y) here
                    (before k y (omega (arith, get_elem?-bound f.queue idx x e)) q)))
              p
        | no other ↦ mono y (v.done k y (omega arith) (before k y (omega (arith, v.within)) q))
      ]

  -- One round, with the rounds after it in hand.
  round_lem :
      (idx : ℕ) (f : Frontier) (x : State) (later : Frontier → Verdict) (r : Round)
      → LoopInv idx f
      → get_elem? f.queue idx ≡ some x
      → Reached a b x
      → ((g : Frontier)
          → LoopInv (suc idx) g
          → length g.queue + space g ≤ length f.queue + space f
          → Decides (Joint a b) (later g))
      → Visited f x r
      → Decides (Joint a b) (after_round a b r later)
  unfolding after_round
  round_lem idx f x later r v e w ih (at_end p q) = w.joins (
    [],
    subst (λ n. Matches (drop n a) []) (sym p)
        (subst (λ l. Matches l []) (sym (drop-length a)) empty),
    subst (λ n. Matches (drop n b) []) (sym q)
        (subst (λ l. Matches l []) (sym (drop-length b)) empty),
  )
  round_lem idx f x later r v e w ih (passed g s p) = ih g (LoopInv-step idx f g x v e s p) s.pays

  loop_lem :
      (fuel idx : ℕ) (f : Frontier)
      → LoopInv idx f
      → length f.queue + space f + 1 ≤ fuel + idx
      → Decides (Joint a b) (loop a b fuel idx f)
  unfolding loop
  loop_lem zero idx f v enough = absurd (omega (arith, v.within))
  loop_lem (suc fuel) idx f v enough = elim (Option-cases (get_elem? f.queue idx)) [
    | inl e ↦ rw (e, loop) (LoopInv-refutes idx f v e)
    | inr (x, e) ↦
        let w = v.fine.good x (v.fine.seen x (get_elem?-Mem f.queue idx x e)) in
        rw (e, loop)
          (round_lem idx f x (loop a b fuel (suc idx)) (visit a b x f) v e w
            (λ g u paid. loop_lem fuel (suc idx) g u (omega arith))
            (visit_lem f x v.fine v.exits w))
  ]

  nothing : Frontier
  nothing = record { seen = []; queue = [] }

  first_Reached : (x : State) → Mem x (state 0 0 ∷ []) → Reached a b x
  first_Reached x m = elim m [
    | inl e ↦
        subst (Reached a b) (sym e)
          (record { left = omega arith; right = omega arith; joins = λ w. w })
    | inr n ↦ absurd n
  ]

  -- The search stops within its fuel, indexes no token list out of range, and answers whether some
  -- text matches both token lists.
  pub segment_tokens_overlap-Decides : Decides (Joint a b) (segment_tokens_overlap a b)
  unfolding segment_tokens_overlap nothing AllExits start loop_fuel room
  segment_tokens_overlap-Decides =
      let (f, e, c) =
        add_closure_lem a b (Reached a b) (star_exits-Reached a b) (Reached-grid a b)
          (closure_fuel a b) (state 0 0 ∷ []) nothing
          (record { queued = λ x m. m; seen = λ x m. m; good = λ x m. absurd m }) first_Reached
          (λ x y m _. absurd m) (enough nothing) in
      rw e (
        loop_lem (loop_fuel a b) 0 f
          (record {
            fine = c.consistent;
            exits = c.exits;
            first = c.covers _ (inl refl);
            done = λ k x h q. absurd (omega arith);
            within = omega arith;
          })
          (omega (
            arith,
            c.pays,
            unseen-nil (grid (length a) (length b)),
            length-grid (length a) (length b),
          )))
