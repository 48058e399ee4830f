-- ===== src/UrlParams/Kept.antt =====
-- The loop of the splitter: what holds after each turn.
use esq.Base.{
  ℕ, zero, suc, ◌+◌, ◌<◌, ◌≤◌, ◌≡◌, refl, sym, ap, subst, ◌∙◌, inl, inr, true, false, arith, ltb,
  ltb→lt, ◌==◌, Bool-cases, Mem, store, store_ne,
}
use esq.UrlParams.{
  Parameter, CharType, other, alnum, percent, equal, question, char_type, State, start,
  after_question, in_name, after_equal, in_value, Split, set_param, Turn, failed, next, end_name,
  end_value, no_value, turn, split_loop,
}
use esq.UrlParams.Texts.{
  Named, Valued, Named-weaken, Valued-weaken, Named-store, Valued-store, Fresh, Fresh-suc,
  Fresh-Text,
}

pub set_param_self : (ps : ℕ → Parameter) (j : ℕ) (p : Parameter) → set_param ps j p j ≡ p
unfolding set_param
set_param_self ps j p = let e : (j == j) ≡ true = ground arith in rw e refl

pub set_param_ne :
    (ps : ℕ → Parameter) (j k : ℕ) (p : Parameter) → (k ≡ j → ⊥) → set_param ps j p k ≡ ps k
unfolding set_param
set_param_ne ps j k p h = let e : (k == j) ≡ false = ground arith in rw e refl

module _ (url0 : Mem) (params0 : ℕ → Parameter) (param_max : ℕ) where
  -- What holds at `i` after `idx` parameters.
  pub record Kept (u : Mem) (ps : ℕ → Parameter) (idx i : ℕ) : Type 0 where
    pub count : idx ≤ param_max
    pub unread : (q : ℕ) → i ≤ q → u q ≡ url0 q
    pub names : (j : ℕ) → j < idx → Named url0 u i (ps j).name (ps j).name_len
    pub values : (j : ℕ) → j < idx → Valued url0 u i (ps j).value (ps j).value_len
    pub outside : (j : ℕ) → param_max ≤ j → ps j ≡ params0 j

  module _ (u : Mem) (ps : ℕ → Parameter) (idx i : ℕ) (k : Kept u ps idx i) where
    pub Kept-weaken : (i' : ℕ) → i ≤ i' → Kept u ps idx i'
    Kept-weaken i' h = record {
      count = k.count;
      unread = λ q b. k.unread q (omega arith);
      names = λ j b. Named-weaken url0 u i i' _ _ h (k.names j b);
      values = λ j b. Valued-weaken url0 u i i' _ _ h (k.values j b);
      outside = k.outside;
    }

    Kept-store : Kept (store u i 0) ps idx (i + 1)
    Kept-store = record {
      count = k.count;
      unread = λ q b. store_ne u i 0 q (omega arith) ∙ k.unread q (omega arith);
      names = λ j b.
          Named-weaken url0 (store u i 0) i (i + 1) _ _ (omega arith)
            (Named-store url0 u i _ _ (k.names j b));
      values = λ j b.
          Valued-weaken url0 (store u i 0) i (i + 1) _ _ (omega arith)
            (Valued-store url0 u i _ _ (k.values j b));
      outside = k.outside;
    }

    Kept-set : (p : Parameter) → idx < param_max → Kept u (set_param ps idx p) idx i
    Kept-set p room = record {
      count = k.count;
      unread = k.unread;
      names = λ j b. rw (set_param_ne ps idx j p (omega arith)) (k.names j b);
      values = λ j b. rw (set_param_ne ps idx j p (omega arith)) (k.values j b);
      outside = λ j b. set_param_ne ps idx j p (omega arith) ∙ k.outside j b;
    }

  module _ (u : Mem) (ps : ℕ → Parameter) (idx i : ℕ) (k : Kept u ps idx i) where
    -- One more parameter is complete.
    Kept-push :
        (p : Parameter)
        → idx < param_max
        → Named url0 u i p.name p.name_len
        → Valued url0 u i p.value p.value_len
        → Kept u (set_param ps idx p) (idx + 1) i
    Kept-push p room name value = record {
      count = omega arith;
      unread = k.unread;
      names = λ j b. elim (Bool-cases (j == idx)) [
        | inl at ↦
            let e : j ≡ idx = ground arith in
            subst (λ r. Named url0 u i r.name r.name_len)
              (sym (ap (set_param ps idx p) e ∙ set_param_self ps idx p)) name
        | inr before ↦ set.names j (ground arith)
      ];
      values = λ j b. elim (Bool-cases (j == idx)) [
        | inl at ↦
            let e : j ≡ idx = ground arith in
            subst (λ r. Valued url0 u i r.value r.value_len)
              (sym (ap (set_param ps idx p) e ∙ set_param_self ps idx p)) value
        | inr before ↦ set.values j (ground arith)
      ];
      outside = set.outside;
    }
      where
        set : Kept u (set_param ps idx p) idx i
        set = Kept-set u ps idx i k p room

  -- What the state says of the parameter that is being read.
  unfoldable pub Begun : State → ℕ → Split → Type 0
  Begun start i st = Unit
  Begun after_question i st = Unit
  Begun in_name i st = Fresh url0 st.url st.name_start i
  Begun after_equal i st =
      (st.idx < param_max) × Named url0 st.url i (st.params st.idx).name (st.params st.idx).name_len
  Begun in_value i st =
      (st.idx < param_max)
      × Named url0 st.url i (st.params st.idx).name (st.params st.idx).name_len
      × Fresh url0 st.url st.value_start i

  unfoldable pub Good : ℕ → Turn → Type 0
  Good i (failed st) = Kept st.url st.params st.idx i
  Good i (next st) = Kept st.url st.params st.idx i × Begun st.state i st

  module _ (i : ℕ) (st : Split) (k : Kept st.url st.params st.idx i) where
    kept : Kept st.url st.params st.idx (i + 1)
    kept = Kept-weaken _ _ _ i k (i + 1) (omega arith)

    end_name-Good :
        Fresh url0 st.url st.name_start i → st.idx < param_max → Good (i + 1) (next (end_name i st))
    unfolding end_name Good Begun
    end_name-Good fresh room = (
      Kept-set _ _ _ _ (Kept-store _ _ _ i k) _ room,
      (
        room,
        subst (λ r. Named url0 (store st.url i 0) (i + 1) r.name r.name_len)
            (sym (set_param_self st.params st.idx _))
            (Fresh-Text url0 st.url st.name_start i fresh),
      ),
    )

    pub end_value-Good :
        st.idx < param_max
        → Named url0 st.url i (st.params st.idx).name (st.params st.idx).name_len
        → Fresh url0 st.url st.value_start i
        → Kept (end_value i st).url (end_value i st).params (end_value i st).idx (i + 1)
    unfolding end_value
    end_value-Good room name fresh =
        Kept-push _ _ _ _ (Kept-store _ _ _ i k) _ room
          (Named-weaken url0 (store st.url i 0) i (i + 1) _ _ (omega arith)
            (Named-store url0 st.url i _ _ name))
          (Fresh-Text url0 st.url st.value_start i fresh)

    pub no_value-Good :
        st.idx < param_max
        → Named url0 st.url i (st.params st.idx).name (st.params st.idx).name_len
        → Kept (no_value st).url (no_value st).params (no_value st).idx (i + 1)
    unfolding no_value
    no_value-Good room name =
        Kept-push _ _ _ _ kept _ room (Named-weaken url0 st.url i (i + 1) _ _ (omega arith) name)
          refl

    -- A turn of the loop.
    turn-Good : (t : CharType) → Begun st.state i st → Good (i + 1) (turn param_max i st.state t st)
    unfolding Fresh Good Begun turn
    turn-Good t b = go st.state refl t b
      where
        here : (q : ℕ) → q ≡ i → st.url q ≡ url0 q
        here q e = k.unread q (omega arith)

        first : Fresh url0 st.url i (i + 1)
        first =
            Fresh-suc url0 st.url i i (omega arith) (k.unread i (omega arith))
              λ q a b. absurd (omega arith)

        more : (p : ℕ) → Fresh url0 st.url p i → Fresh url0 st.url p (i + 1)
        more p (h, same) = Fresh-suc url0 st.url p i (omega arith) (k.unread i (omega arith)) same

        stay : {s : State} → st.state ≡ s → Begun s (i + 1) st → Begun st.state (i + 1) st
        stay e b = subst (λ x. Begun x (i + 1) st) (sym e) b

        longer :
            Named url0 st.url i (st.params st.idx).name (st.params st.idx).name_len
            → Named url0 st.url (i + 1) (st.params st.idx).name (st.params st.idx).name_len
        longer name = Named-weaken url0 st.url i (i + 1) _ _ (omega arith) name

        go_on : Begun in_value i st → Begun in_value (i + 1) st
        go_on (room, name, fresh) = (room, longer name, more st.value_start fresh)

        go :
            (s : State)
            → st.state ≡ s
            → (t : CharType) → Begun s i st
            → Good (i + 1) (turn param_max i s t st)
        go start e question b = (kept, tt)
        go start e other b = kept
        go start e alnum b = kept
        go start e percent b = kept
        go start e equal b = kept
        go after_question e alnum b = (kept, first)
        go after_question e percent b = kept
        go after_question e question b = (kept, stay e tt)
        go after_question e equal b = (kept, stay e tt)
        go after_question e other b = kept
        go in_name e alnum b = (kept, stay e (more st.name_start b))
        go in_name e percent b = kept
        go in_name e equal b = elim (Bool-cases (ltb st.idx param_max)) [
          | inl room ↦ rw room (end_name-Good b (ltb→lt _ _ room))
          | inr full ↦ rw full kept
        ]
        go in_name e question b = kept
        go in_name e other b = kept
        go after_equal e alnum (room, name) = (kept, (room, longer name, first))
        go after_equal e percent (room, name) = (kept, stay e (room, longer name))
        go after_equal e equal b = kept
        go after_equal e question (room, name) = (no_value-Good room name, tt)
        go after_equal e other b = kept
        go in_value e alnum b = (kept, stay e (go_on b))
        go in_value e percent b = (kept, stay e (go_on b))
        go in_value e equal b = (kept, stay e (go_on b))
        go in_value e question (room, name, fresh) = (end_value-Good room name fresh, tt)
        go in_value e other b = kept

  pub split_loop-Good :
      (n i : ℕ) (st : Split)
      → Good i (next st)
      → (i' : ℕ) × (i' ≤ i + n)
        × Good i' (split_loop param_max i n st)
        × ((st' : Split) → split_loop param_max i n st ≡ next st' → i' ≡ i + n)
  unfolding split_loop Good
  split_loop-Good zero i st g =
      let same : i ≡ i + 0 = omega arith in (i, omega arith, g, λ st' e. same)
  split_loop-Good (suc n) i st (k, b) =
      step (turn param_max i st.state (char_type (st.url i)) st)
        (turn-Good i st k (char_type (st.url i)) b) (λ st' g. split_loop-Good n (i + 1) st' g)
    where
      step :
          (t : Turn)
          → Good (i + 1) t
          → ((st' : Split)
              → Good (i + 1) (next st')
              → (i' : ℕ) × (i' ≤ i + 1 + n)
                × Good i' (split_loop param_max (i + 1) n st')
                × ((st'' : Split)
                    → split_loop param_max (i + 1) n st' ≡ next st''
                    → i' ≡ i + 1 + n))
          → (i' : ℕ) × (i' ≤ i + suc n)
            × Good i'
                (elim t [ failed st' ↦ failed st' | next st' ↦ split_loop param_max (i + 1) n st' ])
            × ((st'' : Split)
                → elim t [ failed st' ↦ failed st' | next st' ↦ split_loop param_max (i + 1) n st' ]
                  ≡ next st''
                → i' ≡ i + suc n)
      step (failed st') g later = (i + 1, omega arith, g, λ st'' e. absurd (cc e))
      step (next st') g later =
          let (i', le, g', end) = later st' g in
          (i', omega arith, g', λ st'' e. let h : i' ≡ i + 1 + n = end st'' e in omega arith)
