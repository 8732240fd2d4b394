-- ===== src/Infrastructure/Commands/Serial.antt =====
-- The order of the commands: what a processed command may have overtaken.
use mathlib.Core.List.Memᴰ
use mathlib.Core.List.{Memᴰ}
use mathlib.Core.Path.{transport}
use quantora_trade.Prelude.{
  ℕ, ◌≤◌, ◌<◌, ◌≡◌, ◌≢◌, refl, sym, ◌∙◌, ◌⊎◌, inl, inr, String, Bool, true, false, some, List, [],
  ◌∷◌, ◌++◌, map, any, ◌==◌, arith, ltb, nat_eq, Bool-cases, ap, ==_eq, ==_refl, if-elim, holds,
  ◌||◌,
}
use quantora_trade.Infrastructure.Commands.{
  CommandStatus-discrete, queued, processing, DurableSystemCommand, Queue, candidate, is_active,
  leased_to, update_if,
}
use quantora_trade.Infrastructure.Commands.Rows.{
  Step, step, run, empty, step-Change, kept, appended, claimed, settled, Settles,
}
use quantora_trade.Infrastructure.Commands.Oldest.{IsOldest, candidate-IsOldest}

abbrev Row : Type 0
Row = DurableSystemCommand

any-Memᴰ : (p : Row → Bool) (rs : List Row) (b : Row) → any p rs ≡ false → Memᴰ b rs → p b ≡ false
any-Memᴰ p [] b h m = absurd (Memᴰ.not-nil m)
any-Memᴰ p (r ∷ rs) b h m = elim (Memᴰ.cases_cons m) [
  | inl e ↦ ap p e ∙ ground (arith, h)
  | inr k ↦ any-Memᴰ p rs b (ground (arith, h)) k
]

-- Of two rows of which `b` was committed before `a`: a processed `a` has overtaken no `b` of a smaller
-- number.
abbrev InOrder : Row → Row → Type 0
InOrder a b = a.status ≡ processing → b.queue_sequence < a.queue_sequence → is_active b ≡ false

-- The rows stand in the order of their commits.
abbrev AreInOrder : List Row → Type 0
AreInOrder [] = Unit
AreInOrder (b ∷ rs) = ((a : Row) → Memᴰ a rs → InOrder a b) × AreInOrder rs

-- The table between transactions: an id names one row, as a number does, and the rows are in order.
pub record IsSerial (q : Queue) : Type 0 where
  pub keyed : (a b : Row) → Memᴰ a q.rows → Memᴰ b q.rows → a.id ≡ b.id → a ≡ b
  pub unique :
      (a b : Row) → Memᴰ a q.rows → Memᴰ b q.rows → a.queue_sequence ≡ b.queue_sequence → a ≡ b
  pub ordered : AreInOrder q.rows

mapped-AreInOrder :
    (g : Row → Row) (rs : List Row)
    → ((a b : Row) → Memᴰ a rs → Memᴰ b rs → InOrder a b → InOrder (g a) (g b))
    → AreInOrder rs
    → AreInOrder (map g rs)
mapped-AreInOrder g [] h o = tt
mapped-AreInOrder g (b ∷ rs) h (o, os) = (
  λ a m.
      let (x, mx, ex) = Memᴰ.of_map g rs m in
      transport (λ k. InOrder (ex k) (g b)) (h x b (Memᴰ.tail mx) (Memᴰ.head refl) (o x mx)),
  mapped-AreInOrder g rs (λ x y mx my. h x y (Memᴰ.tail mx) (Memᴰ.tail my)) os,
)

appended-AreInOrder :
    (rs : List Row) (c : Row) → c.status ≢ processing → AreInOrder rs → AreInOrder (rs ++ c ∷ [])
appended-AreInOrder [] c n o = (λ a m. absurd (Memᴰ.not-nil m), tt)
appended-AreInOrder (b ∷ rs) c n (o, os) = (
  λ a m. elim (Memᴰ.append_cases rs m) [
    | inl x ↦ o a x
    | inr y ↦ λ h l. absurd (n (sym (ap (λ z. z.status) (Memᴰ.eq_of_singleton y)) ∙ h))
  ],
  appended-AreInOrder rs c n os,
)

-- A table whose rows are those of another one after an update.
mapped :
    (g : Row → Row) (q r : Queue)
    → ((a : Row) → ((g a).id ≡ a.id) × ((g a).queue_sequence ≡ a.queue_sequence))
    → r.rows ≡ map g q.rows
    → ((a b : Row) → Memᴰ a q.rows → Memᴰ b q.rows → InOrder a b → InOrder (g a) (g b))
    → IsSerial q
    → IsSerial r
mapped g q r hg e ho i = record {
  keyed = λ a b ma mb h.
      let (x, mx, ex) = back a ma in
      let (y, my, ey) = back b mb in
      sym ex
      ∙ ap g (
          i.keyed x y mx my
            (sym (hg x).0 ∙ ap (λ z. z.id) ex ∙ h ∙ sym (ap (λ z. z.id) ey) ∙ (hg y).0))
      ∙ ey;
  unique = λ a b ma mb h.
      let (x, mx, ex) = back a ma in
      let (y, my, ey) = back b mb in
      sym ex
      ∙ ap g (
          i.unique x y mx my (
            sym (hg x).1
            ∙ ap (λ z. z.queue_sequence) ex
            ∙ h
            ∙ sym (ap (λ z. z.queue_sequence) ey)
            ∙ (hg y).1))
      ∙ ey;
  ordered = transport (λ k. AreInOrder (sym e k)) (mapped-AreInOrder g q.rows ho i.ordered);
}
  where
    back : (a : Row) → Memᴰ a r.rows → (x : Row) × Memᴰ x q.rows × (g x ≡ a)
    back a m = Memᴰ.of_map g q.rows (transport (λ k. Memᴰ a (e k)) m)

active : (a : Row) → a.status ≡ processing → is_active a ≡ false → ⊥
unfolding CommandStatus-discrete
active a h k = ground (arith, h, k)

inactive : (a b : Row) → b.status ≡ a.status → is_active a ≡ false → is_active b ≡ false
inactive a b h k =
    transport
      (λ i.
        holds (CommandStatus-discrete (sym h i) queued)
          || holds (CommandStatus-discrete (sym h i) processing)
        ≡ false)
      k

settled-IsSerial :
    (q r : Queue) (p : Row → Bool) (f : Row → Row)
    → Settles f
    → r.rows ≡ map (update_if p f) q.rows
    → IsSerial q
    → IsSerial r
settled-IsSerial q r p f hf e i = mapped (update_if p f) q r same e order i
  where
    same :
        (a : Row)
        → ((update_if p f a).id ≡ a.id) × ((update_if p f a).queue_sequence ≡ a.queue_sequence)
    same a =
        if-elim (λ (x : Row). (x.id ≡ a.id) × (x.queue_sequence ≡ a.queue_sequence)) (p a)
          (λ _. ((hf a).0, (hf a).1)) (λ _. (refl, refl))

    -- A row that is processed after the update was processed before it, and a finished one stays so.
    was : (a : Row) → (update_if p f a).status ≡ processing → a.status ≡ processing
    was a =
        if-elim (λ (x : Row). x.status ≡ processing → a.status ≡ processing) (p a)
          (λ _ h. elim (hf a).2 [ inl k ↦ sym k ∙ h | inr k ↦ absurd (active (f a) h k) ])
          (λ _ h. h)

    stays : (a : Row) → is_active a ≡ false → is_active (update_if p f a) ≡ false
    stays a h =
        if-elim (λ (x : Row). is_active x ≡ false) (p a)
          (λ _. elim (hf a).2 [ inl k ↦ inactive a (f a) k h | inr k ↦ k ]) (λ _. h)

    order :
        (a b : Row)
        → Memᴰ a q.rows
        → Memᴰ b q.rows
        → InOrder a b
        → InOrder (update_if p f a) (update_if p f b)
    order a b ma mb o h l = stays b (o (was a h) (omega (arith, l, (same a).1, (same b).1)))

leased_keeps :
    (worker : String) (duration now token : ℕ) (a : Row)
    → ((leased_to worker duration now token a).id ≡ a.id)
      × ((leased_to worker duration now token a).queue_sequence ≡ a.queue_sequence)
unfolding leased_to
leased_keeps worker duration now token a = (refl, refl)

claimed-IsSerial :
    (q r : Queue) (c : Row) (worker : String) (duration now token : ℕ)
    → candidate q.rows ≡ some c
    → r.rows ≡ map (update_if (λ o. o.id == c.id) (leased_to worker duration now token)) q.rows
    → IsSerial q
    → IsSerial r
claimed-IsSerial q r c worker duration now token hc e i = mapped g q r same e order i
  where
    p : Row → Bool
    p o = o.id == c.id

    g : Row → Row
    g = update_if p (leased_to worker duration now token)

    oldest : IsOldest (some c) q.rows
    oldest = transport (λ k. IsOldest (hc k) q.rows) (candidate-IsOldest q.rows)

    same : (a : Row) → ((g a).id ≡ a.id) × ((g a).queue_sequence ≡ a.queue_sequence)
    same a =
        if-elim (λ (x : Row). (x.id ≡ a.id) × (x.queue_sequence ≡ a.queue_sequence)) (p a)
          (λ _. leased_keeps worker duration now token a) (λ _. (refl, refl))

    is_it : (a : Row) → Memᴰ a q.rows → p a ≡ true → a ≡ c
    is_it a m h = i.keyed a c m oldest.0 (==_eq a.id c.id h)

    -- Every row with a smaller number than the claimed one is finished, and stays so.
    before :
        (a b : Row)
        → Memᴰ a q.rows
        → Memᴰ b q.rows
        → InOrder a b
        → (g a).status ≡ processing
        → b.queue_sequence < a.queue_sequence
        → is_active b ≡ false
    before a b ma mb o h l = elim (Bool-cases (is_active b)) [
      | inr k ↦ k
      | inl k ↦
          if-elim (λ (x : Row). x.status ≡ processing → is_active b ≡ false) (p a)
            (λ e _.
              absurd (omega (arith, l, ap (λ z. z.queue_sequence) (is_it a ma e), oldest.2 b mb k)))
            (λ _ h. o h l) h
    ]

    stays : (b : Row) → Memᴰ b q.rows → is_active b ≡ false → is_active (g b) ≡ false
    stays b m h =
        if-elim (λ (x : Row). is_active x ≡ false) (p b)
          (λ e. cc (ap is_active (is_it b m e), h, oldest.1)) (λ _. h)

    order : (a b : Row) → Memᴰ a q.rows → Memᴰ b q.rows → InOrder a b → InOrder (g a) (g b)
    order a b ma mb o h l =
        stays b mb (before a b ma mb o h (omega (arith, l, (same a).1, (same b).1)))

appended-IsSerial :
    (q r : Queue) (c : Row)
    → c.status ≡ queued
    → any (λ o. o.queue_sequence == c.queue_sequence) q.rows ≡ false
    → any (λ o. o.id == c.id) q.rows ≡ false
    → r.rows ≡ q.rows ++ c ∷ []
    → IsSerial q
    → IsSerial r
appended-IsSerial q r c hs hn hf e i = record {
  keyed = λ a b ma mb h. elim (back a ma) [
    | inl x ↦ elim (back b mb) [
      | inl y ↦ i.keyed a b x y h
      | inr y ↦ absurd (fresh (λ z. z.id) a hf x (h ∙ ap (λ z. z.id) y))
    ]
    | inr x ↦ elim (back b mb) [
      | inl y ↦ absurd (fresh (λ z. z.id) b hf y (sym h ∙ ap (λ z. z.id) x))
      | inr y ↦ x ∙ sym y
    ]
  ];
  unique = λ a b ma mb h. elim (back a ma) [
    | inl x ↦ elim (back b mb) [
      | inl y ↦ i.unique a b x y h
      | inr y ↦ absurd (fresh (λ z. z.queue_sequence) a hn x (h ∙ ap (λ z. z.queue_sequence) y))
    ]
    | inr x ↦ elim (back b mb) [
      | inl y ↦ absurd (fresh (λ z. z.queue_sequence) b hn y (sym h ∙ ap (λ z. z.queue_sequence) x))
      | inr y ↦ x ∙ sym y
    ]
  ];
  ordered = transport (λ k. AreInOrder (sym e k)) (appended-AreInOrder q.rows c waiting i.ordered);
}
  where
    back : (a : Row) → Memᴰ a r.rows → Memᴰ a q.rows ⊎ (a ≡ c)
    back a m = elim (Memᴰ.append_cases q.rows (transport (λ k. Memᴰ a (e k)) m)) [
      | inl x ↦ inl x
      | inr y ↦ inr (Memᴰ.eq_of_singleton y)
    ]

    fresh :
        (f : Row → ℕ) (a : Row) → any (λ o. f o == f c) q.rows ≡ false → Memᴰ a q.rows → f a ≢ f c
    fresh f a none m h =
        cc (any-Memᴰ (λ o. f o == f c) q.rows a none m, ap (λ k. k == f c) h, ==_refl (f c))

    waiting : c.status ≢ processing
    waiting h = ground (arith, h, hs)

kept-IsSerial : (q r : Queue) → r.rows ≡ q.rows → IsSerial q → IsSerial r
kept-IsSerial q r e i = record {
  keyed = λ a b ma mb. i.keyed a b (back a ma) (back b mb);
  unique = λ a b ma mb. i.unique a b (back a ma) (back b mb);
  ordered = transport (λ k. AreInOrder (sym e k)) i.ordered;
}
  where
    back : (a : Row) → Memᴰ a r.rows → Memᴰ a q.rows
    back a m = transport (λ k. Memᴰ a (e k)) m

pub step-IsSerial : (s : Step) (q : Queue) → IsSerial q → IsSerial (step s q)
step-IsSerial s q i = elim (step-Change s q) [
  | kept e ↦ kept-IsSerial q (step s q) e i
  | appended c hs hn v hf e ↦ appended-IsSerial q (step s q) c hs hn hf e i
  | claimed c worker duration now token t hc l v e ↦
      claimed-IsSerial q (step s q) c worker duration now token hc e i
  | settled id worker token now f t h hf v e ↦ settled-IsSerial q (step s q) _ f hf e i
]

pub run-IsSerial : (steps : List Step) (q : Queue) → IsSerial q → IsSerial (run steps q)
unfolding run
run-IsSerial [] q i = i
run-IsSerial (s ∷ steps) q i = run-IsSerial steps (step s q) (step-IsSerial s q i)

pub empty-IsSerial : IsSerial empty
empty-IsSerial = record {
  keyed = λ a b m. absurd (Memᴰ.not-nil m);
  unique = λ a b m. absurd (Memᴰ.not-nil m);
  ordered = tt;
}

in_order : (xs ys : List Row) (a b : Row) → AreInOrder (xs ++ b ∷ ys) → Memᴰ a ys → InOrder a b
in_order [] ys a b (o, _) m = o a m
in_order (x ∷ xs) ys a b (_, os) m = in_order xs ys a b os m

-- From the empty table, over any calls of any workers at any times and commits in any order, take a
-- command `a` that is being processed and a command `b` that was committed before it. Then `b` is
-- finished, or its number is no smaller than that of `a`. So two commands are processed at once only
-- when they were committed against the order of their numbers.
pub run-overtakes_none :
    (steps : List Step) (xs ys : List DurableSystemCommand) (a b : DurableSystemCommand)
    → (run steps empty).rows ≡ xs ++ b ∷ ys
    → Memᴰ a ys
    → a.status ≡ processing
    → (is_active b ≡ false) ⊎ (a.queue_sequence ≤ b.queue_sequence)
run-overtakes_none steps xs ys a b e m h =
    elim (Bool-cases (ltb b.queue_sequence a.queue_sequence)) [
      | inl l ↦ inl (o h (ground (arith, l)))
      | inr l ↦ inr (ground (arith, l))
    ]
  where
    i : IsSerial (run steps empty)
    i = run-IsSerial steps empty empty-IsSerial

    o : InOrder a b
    o = in_order xs ys a b (transport (λ k. AreInOrder (e k)) i.ordered) m
