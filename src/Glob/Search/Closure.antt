-- ===== src/Glob/Search/Closure.antt =====
-- `addClosure`: it ends within its fuel, and what it has seen is closed under leaving a star.
use intermute.Base.{
  ℕ, zero, suc, ◌+◌, ◌*◌, ◌≤◌, ◌≡◌, refl, ◌⊎◌, inl, inr, false, List, [], ◌∷◌, ◌++◌, some, arith,
  length, length-append, Mem, Mem-append_left, Mem-append_right, Mem-append, Bool-cases,
  append_assoc, append-nil, sym, subst, ◌∙◌,
}
use intermute.Glob.Pattern.{Tokens}
use intermute.Glob.Search.{State, Frontier, star_exits, add_closure, is_seen}
use intermute.Glob.Search.Grid.{grid, unseen, unseen-cons-lt, is_seen-Mem}

pub length-star_exits : (a b : Tokens) (x : State) → length (star_exits a b x) ≤ 2
unfolding star_exits
length-star_exits a b x = ground arith

module _ (a b : Tokens) (P : State → Type 0)
    (exit : (x y : State) → P x → Mem y (star_exits a b x) → P y)
    (on_grid : (x : State) → P x → Mem x (grid (length a) (length b))) where
  -- The map and the queue hold the same pairs, and each of them has the property `P`.
  pub record Consistent (f : Frontier) : Type 0 where
    pub queued : (x : State) → Mem x f.seen → Mem x f.queue
    pub seen : (x : State) → Mem x f.queue → Mem x f.seen
    pub good : (x : State) → Mem x f.seen → P x

  unfoldable pub room : Frontier → ℕ
  room f = unseen (grid (length a) (length b)) f.seen

  pub record Closed (stack : List State) (f g : Frontier) : Type 0 where
    pub consistent : Consistent g
    pub exits : (x y : State) → Mem x g.seen → Mem y (star_exits a b x) → Mem y g.seen
    pub covers : (x : State) → Mem x stack → Mem x g.seen
    pub grows : (x : State) → Mem x f.seen → Mem x g.seen
    pub new : List State
    pub extends : g.queue ≡ f.queue ++ new
    pub pays : length g.queue + room g ≤ length f.queue + room f

  abbrev visited : State → Frontier → Frontier
  visited x f = record { seen = x ∷ f.seen; queue = f.queue ++ x ∷ [] }

  visited-Consistent : (x : State) (f : Frontier) → P x → Consistent f → Consistent (visited x f)
  visited-Consistent x f px c = record {
    queued = λ y h. elim h [
      | inl e ↦ Mem-append_right y f.queue (x ∷ []) (inl e)
      | inr m ↦ Mem-append_left y f.queue (x ∷ []) (c.queued y m)
    ];
    seen = λ y h. elim (Mem-append y f.queue (x ∷ []) h) [
      | inl m ↦ inr (c.seen y m)
      | inr m ↦ elim m [ inl e ↦ inl e | inr n ↦ absurd n ]
    ];
    good = λ y h. elim h [ inl e ↦ subst P (sym e) px | inr m ↦ c.good y m ];
  }

  visited-pays :
      (x : State) (f : Frontier)
      → P x
      → is_seen x f.seen ≡ false
      → suc (room (visited x f)) ≤ room f
  unfolding room
  visited-pays x f px h = unseen-cons-lt x (grid (length a) (length b)) f.seen (on_grid x px) h

  -- Each star exit of a seen pair is seen or still on the stack.
  abbrev Pending : List State → Frontier → Type 0
  Pending stack f =
      (x y : State) → Mem x f.seen → Mem y (star_exits a b x) → Mem y f.seen ⊎ Mem y stack

  visited-Pending :
      (x : State) (stack : List State) (f : Frontier)
      → Pending (x ∷ stack) f
      → Pending (star_exits a b x ++ stack) (visited x f)
  visited-Pending x stack f h y z (inl e) mz =
      inr (Mem-append_left z (star_exits a b x) stack (subst (λ w. Mem z (star_exits a b w)) e mz))
  visited-Pending x stack f h y z (inr m) mz = elim (h y z m mz) [
    | inl s ↦ inl (inr s)
    | inr t ↦ elim t [
      | inl e ↦ inl (inl e)
      | inr r ↦ inr (Mem-append_right z (star_exits a b x) stack r)
    ]
  ]

  skipped-Pending :
      (x : State) (stack : List State) (f : Frontier)
      → Mem x f.seen
      → Pending (x ∷ stack) f
      → Pending stack f
  skipped-Pending x stack f m h y z my mz = elim (h y z my mz) [
    | inl s ↦ inl s
    | inr t ↦ elim t [ inl e ↦ inl (subst (λ w. Mem w f.seen) (sym e) m) | inr r ↦ inr r ]
  ]

  skipped-Closed :
      (x : State) (stack : List State) (f g : Frontier)
      → Mem x f.seen
      → Closed stack f g
      → Closed (x ∷ stack) f g
  skipped-Closed x stack f g m c = record {
    consistent = c.consistent;
    exits = c.exits;
    covers = λ y h. elim h [
      | inl e ↦ subst (λ w. Mem w g.seen) (sym e) (c.grows x m)
      | inr r ↦ c.covers y r
    ];
    grows = c.grows;
    new = c.new;
    extends = c.extends;
    pays = c.pays;
  }

  visited-Closed :
      (x : State) (stack : List State) (f g : Frontier)
      → suc (room (visited x f)) ≤ room f
      → Closed (star_exits a b x ++ stack) (visited x f) g
      → Closed (x ∷ stack) f g
  visited-Closed x stack f g paid c = record {
    consistent = c.consistent;
    exits = c.exits;
    covers = λ y h. elim h [
      | inl e ↦ c.grows y (inl e)
      | inr r ↦ c.covers y (Mem-append_right y (star_exits a b x) stack r)
    ];
    grows = λ y m. c.grows y (inr m);
    new = x ∷ c.new;
    extends = c.extends ∙ append_assoc f.queue (x ∷ []) c.new;
    pays = omega (arith, c.pays, paid, length-append f.queue (x ∷ []));
  }

  -- `addClosure` returns when its fuel covers three steps for each pair not yet seen and one for
  -- each pair on the stack; then it has seen the stack and is closed under leaving a star.
  pub add_closure_lem :
      (fuel : ℕ) (stack : List State) (f : Frontier)
      → Consistent f
      → ((x : State) → Mem x stack → P x)
      → Pending stack f
      → 3 * room f + length stack ≤ fuel
      → (g : Frontier) × (add_closure a b fuel stack f ≡ some g) × Closed stack f g
  unfolding add_closure
  add_closure_lem fuel [] f c ps h enough = (
    f,
    refl,
    record {
      consistent = c;
      exits = λ x y mx my. elim (h x y mx my) [ inl s ↦ s | inr n ↦ absurd n ];
      covers = λ x n. absurd n;
      grows = λ x m. m;
      new = [];
      extends = sym (append-nil f.queue);
      pays = omega arith;
    },
  )
  add_closure_lem zero (x ∷ stack) f c ps h enough = absurd (omega arith)
  add_closure_lem (suc fuel) (x ∷ stack) f c ps h enough = elim (Bool-cases (is_seen x f.seen)) [
    | inl old ↦
        let m = is_seen-Mem x f.seen old in
        let (g, e, r) =
          add_closure_lem fuel stack f c (λ y my. ps y (inr my)) (skipped-Pending x stack f m h)
            (omega arith) in
        (g, rw old e, skipped-Closed x stack f g m r)
    | inr new ↦
        let px = ps x (inl refl) in
        let paid = visited-pays x f px new in
        let (g, e, r) =
          add_closure_lem fuel (star_exits a b x ++ stack) (visited x f)
            (visited-Consistent x f px c)
            (λ y my. elim (Mem-append y (star_exits a b x) stack my) [
              | inl l ↦ exit x y px l
              | inr r ↦ ps y (inr r)
            ])
            (visited-Pending x stack f h)
            (omega
              (arith, paid, length-append (star_exits a b x) stack, length-star_exits a b x)) in
        (g, rw new e, visited-Closed x stack f g paid r)
  ]
