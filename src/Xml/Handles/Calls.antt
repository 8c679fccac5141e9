-- ===== src/Xml/Handles/Calls.antt =====
-- What the calls on handles do: no count is used once it is freed, but by the assignment of the last
-- handle to itself.
use quintses.Common.{
  ℕ, true, false, zero, suc, ◌+◌, ◌^◌, ◌≤◌, ◌<◌, ◌≡◌, refl, ap, sym, ◌∙◌, none, some, List, [], ◌∷◌,
  ◌++◌, arith, ◌==◌, length, inl, inr, Bool-cases, ==_iff,
}
use quintses.Common.Map.{Map, lookup, assign, lookup-assign}
use quintses.Xml.Handles.{
  Handle, Doms, Call, dead, null, to, at, put, retain, increment, call, with_counts, and_retain,
  default_dom, text_dom, copies, assigns, destroys,
}
use quintses.Xml.Handles.Counts.{
  Inv, Counted, IsApart, losses, counted, hit, hit-same, shares, shares-append, shares-put,
  shares-put_dead, at-put, shares-at, release-Counted, retain-Counted,
}

-- The program assigns to a handle that it has, and never a handle to itself that is the only one.
abbrev pub IsFair : Call → Doms → Type 0
IsFair (assigns i j) s =
    (i < length s.handles) × ((a : ℕ) → i ≡ j → at j s.handles ≡ to a → 2 ≤ shares a s.handles)
IsFair e s = Unit

length-put : (i : ℕ) (v : Handle) (hs : List Handle) → length (put i v hs) ≡ length hs
length-put i v [] = refl
length-put zero v (h ∷ hs) = refl
length-put (suc i) v (h ∷ hs) = ap suc (length-put i v hs)

hit-le : (a : ℕ) (h : Handle) → hit a h ≤ 1
hit-le a h = ground arith

hit-shares : (a j : ℕ) (hs : List Handle) → hit a (at j hs) ≤ shares a hs
hit-shares a j hs = omega (arith, shares-put_dead a j hs)

module _ (s : Doms) (inv : Inv s) (room : length s.handles + 1 < 2 ^ 32) where
  open inv use {counted_by, apart, fresh}

  -- The source of a fair assignment still shares its count behind the release of the target.
  still :
      (i j : ℕ)
      → ((a : ℕ) → i ≡ j → at j s.handles ≡ to a → 2 ≤ shares a s.handles)
      → (b : ℕ) → at j s.handles ≡ to b
      → 1 ≤ shares b (put i dead s.handles)
  still i j fair b e = elim (Bool-cases (i == j)) [
    | inl self ↦
        let two : 2 ≤ shares b s.handles = fair b ((==_iff i j).0 self) e in
        omega (arith, shares-put_dead b i s.handles, hit-le b (at i s.handles))
    | inr apart ↦
        shares-at b j (put i dead s.handles) (at-put i j dead s.handles (λ self. ground arith) ∙ e)
  ]

  -- One handle less leaves what is lost apart.
  dead-IsApart : (i : ℕ) → IsApart s.lost (put i dead s.handles)
  dead-IsApart i a h = apart a (omega (arith, h, shares-put_dead a i s.handles))

  default_dom-Inv : Inv (record s { handles = s.handles ++ null ∷ [] })
  default_dom-Inv = record {
    counted_by = λ a. ground (arith, counted_by a, shares-append a s.handles null);
    apart = λ a h. apart a (omega (arith, h, shares-append a s.handles null));
    fresh = λ a h. fresh a (omega (arith, h, shares-append a s.handles null));
  }

  text_dom-Inv : Inv (record s {
    counts = assign s.next 1 s.counts;
    next = s.next + 1;
    handles = s.handles ++ to s.next ∷ [];
  })
  text_dom-Inv = record {
    counted_by = λ a. ground (
      arith,
      counted_by a,
      fresh a,
      lookup-assign s.next 1 a s.counts,
      shares-append a s.handles (to s.next),
    );
    apart = λ a h. ground (arith, h, apart a, fresh a, shares-append a s.handles (to s.next));
    fresh = λ a h. ground (arith, fresh a, shares-append a s.handles (to s.next));
  }

  text_dom_lost-Inv :
      Inv
        (record s { counts = assign s.next 1 s.counts; next = s.next + 1; lost = s.next ∷ s.lost })
  unfolding losses
  text_dom_lost-Inv = record {
    counted_by = λ a. ground (arith, counted_by a, fresh a, lookup-assign s.next 1 a s.counts);
    apart = λ a h. ground (arith, h, apart a, fresh a);
    fresh = λ a h. ground (arith, h, fresh a);
  }

  copies-Inv :
      (j : ℕ) (after : Map ℕ)
      → ((a : ℕ)
          → lookup a after
            ≡ counted (shares a s.handles + hit a (at j s.handles) + losses a s.lost))
      → Inv (record s { counts = after; handles = s.handles ++ at j s.handles ∷ [] })
  copies-Inv j after counts =
      let more = λ (a : ℕ). shares-append a s.handles (at j s.handles) in
      record {
        counted_by = λ a. counts a ∙ ap (λ n. counted (n + losses a s.lost)) (sym (more a));
        apart = λ a h. apart a (omega (arith, h, more a, hit-shares a j s.handles));
        fresh = λ a h. fresh a (omega (arith, h, more a, hit-shares a j s.handles));
      }

  destroys-Inv :
      (i : ℕ) (after : Map ℕ)
      → Counted s.lost (put i dead s.handles) after
      → Inv (record s { counts = after; handles = put i dead s.handles })
  destroys-Inv i after counts = record {
    counted_by = counts;
    apart = dead-IsApart i;
    fresh = λ a h. fresh a (omega (arith, h, shares-put_dead a i s.handles));
  }

  assigns-Inv :
      (i j : ℕ) (after : Map ℕ)
      → i < length s.handles
      → ((a : ℕ)
          → lookup a after
            ≡ counted (shares a (put i dead s.handles) + hit a (at j s.handles) + losses a s.lost))
      → Inv (record s { counts = after; handles = put i (at j s.handles) s.handles })
  assigns-Inv i j after inside counts =
      let now = λ (a : ℕ). shares-put a i (at j s.handles) s.handles inside in
      let less = λ (a : ℕ). shares-put_dead a i s.handles in
      record {
        counted_by = λ a. counts a ∙ ap (λ n. counted (n + losses a s.lost)) (sym (now a));
        apart = λ a h. apart a (omega (arith, h, now a, less a, hit-shares a j s.handles));
        fresh = λ a h. fresh a (omega (arith, h, now a, less a, hit-shares a j s.handles));
      }

  -- In a program with fewer than 2 ^ 32 - 1 handles, within the invariant that each count is the
  -- number of the handles that share it and is freed with the last of them, but for the counts of
  -- the constructors that threw, which stay 1 and which no handle shares: every call, the
  -- constructor on a text that cannot be parsed included, uses only counts that are allocated and
  -- keeps the invariant; but the target of an assignment must be a handle of the program, and an
  -- assignment of a handle to itself must not be of the only one.
  pub call-Inv : (e : Call) → IsFair e s → (s' : Doms) × (call e s ≡ some s') × Inv s'
  unfolding call
  call-Inv default_dom fair = (_, refl, default_dom-Inv)
  call-Inv (text_dom true) fair = (_, refl, text_dom-Inv)
  call-Inv (text_dom false) fair = (_, refl, text_dom_lost-Inv)
  call-Inv (copies j) fair =
      let (after, done, counts) =
        retain-Counted (at j s.handles) s.lost s.handles s.counts room apart counted_by
          (λ b. shares-at b j s.handles) in
      (
        _,
        ap
            (λ o.
              with_counts o (λ counts. record s {
                counts = counts;
                handles = s.handles ++ at j s.handles ∷ [];
              }))
            done,
        copies-Inv j after counts,
      )
  call-Inv (destroys i) fair =
      let (after, done, counts) =
        release-Counted i s.lost s.handles s.counts (omega arith) apart counted_by in
      (
        _,
        ap
            (λ o.
              with_counts o
                (λ counts. record s { counts = counts; handles = put i dead s.handles }))
            done,
        destroys-Inv i after counts,
      )
  call-Inv (assigns i j) (inside, fair) =
      let (freed, released, left) =
        release-Counted i s.lost s.handles s.counts (omega arith) apart counted_by in
      let (after, done, counts) =
        retain-Counted (at j s.handles) s.lost (put i dead s.handles) freed
          (omega (arith, length-put i dead s.handles)) (dead-IsApart i) left (still i j fair) in
      (
        _,
        ap
              (λ o. with_counts (and_retain o (at j s.handles)) (λ counts. record s {
                counts = counts;
                handles = put i (at j s.handles) s.handles;
              }))
              released
            ∙ ap
                (λ o. with_counts o (λ counts. record s {
                  counts = counts;
                  handles = put i (at j s.handles) s.handles;
                }))
                done,
        assigns-Inv i j after inside counts,
      )

  -- The assignment to itself of the only handle of a document frees the count and then increments it.
  pub assigns_self :
      (i a : ℕ) → at i s.handles ≡ to a → shares a s.handles ≡ 1 → call (assigns i i) s ≡ none
  unfolding call retain increment
  assigns_self i a e one =
      let (freed, released, left) =
        release-Counted i s.lost s.handles s.counts (omega arith) apart counted_by in
      let zero_left : 0 ≡ shares a (put i dead s.handles) + losses a s.lost =
        omega
          (arith, shares-put_dead a i s.handles, ap (hit a) e, hit-same a, apart a (omega arith)) in
      let gone : lookup a freed ≡ none = left a ∙ sym (ap counted zero_left) in
      rw (released, e, gone, increment) refl
