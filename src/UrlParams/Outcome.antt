-- ===== src/UrlParams/Outcome.antt =====
-- What `esq_split_parameters` returns, and what it leaves in memory.
use esq.Base.{
  ℕ, zero, suc, ◌+◌, ◌-◌, ◌<◌, ◌≤◌, ◌≡◌, refl, sym, ap, subst, ◌∙◌, inl, inr, some, arith, ◌==◌,
  Bool-cases, Mem,
}
use esq.UrlParams.{
  Parameter, State, start, after_question, in_name, after_equal, in_value, Split, set_param, Turn,
  failed, next, finish, cleared, clear_params, Result, returned, esq_split_parameters,
}
use esq.UrlParams.Texts.{Named, Valued}
use esq.UrlParams.Kept.{
  Kept, Begun, Good, Kept-weaken, split_loop-Good, end_value-Good, no_value-Good, set_param_self,
  set_param_ne,
}

-- Clearing changes exactly the parameters of its range.
clear_params_below : (n i : ℕ) (ps : ℕ → Parameter) (j : ℕ) → j < i → clear_params n i ps j ≡ ps j
unfolding clear_params
clear_params_below zero i ps j h = refl
clear_params_below (suc n) i ps j h =
    clear_params_below n (i + 1) (set_param ps i cleared) j (omega arith)
    ∙ set_param_ne ps i j cleared (omega arith)

clear_params_behind :
    (n i : ℕ) (ps : ℕ → Parameter) (j : ℕ) → i + n ≤ j → clear_params n i ps j ≡ ps j
unfolding clear_params
clear_params_behind zero i ps j h = refl
clear_params_behind (suc n) i ps j h =
    clear_params_behind n (i + 1) (set_param ps i cleared) j (omega arith)
    ∙ set_param_ne ps i j cleared (omega arith)

clear_params_inside :
    (n i : ℕ) (ps : ℕ → Parameter) (j : ℕ) → i ≤ j → j < i + n → clear_params n i ps j ≡ cleared
unfolding clear_params
clear_params_inside zero i ps j h k = absurd (omega arith)
clear_params_inside (suc n) i ps j h k = elim (Bool-cases (j == i)) [
  | inl at ↦
      let e : j ≡ i = ground arith in
      clear_params_below n (i + 1) (set_param ps i cleared) j (omega arith)
      ∙ ap (set_param ps i cleared) e
      ∙ set_param_self ps i cleared
  | inr later ↦
      clear_params_inside n (i + 1) (set_param ps i cleared) j (ground arith) (omega arith)
]

-- The result of splitting `len` bytes of `url` into at most `param_max` parameters.
pub record IsSplit (url : Mem) (len : ℕ) (params : ℕ → Parameter) (param_max : ℕ) (r : Result)
    : Type 0 where
  pub url_behind : (q : ℕ) → len < q → r.url q ≡ url q
  pub params_behind : (j : ℕ) → param_max ≤ j → r.params j ≡ params j
  pub count_small : (k : ℕ) → r.count ≡ some k → k ≤ param_max
  pub names :
      (k j : ℕ)
      → r.count ≡ some k
      → j < k
      → Named url r.url (len + 1) (r.params j).name (r.params j).name_len
  pub values :
      (k j : ℕ)
      → r.count ≡ some k
      → j < k
      → Valued url r.url (len + 1) (r.params j).value (r.params j).value_len
  pub rest : (k j : ℕ) → r.count ≡ some k → k ≤ j → j < param_max → r.params j ≡ cleared

module _ (url : Mem) (len : ℕ) (params : ℕ → Parameter) (param_max : ℕ) where
  finish-Kept :
      (s : State) (st : Split)
      → Kept url params param_max st.url st.params st.idx len
      → Begun url params param_max s len st
      → Kept url params param_max
          (finish s len st).url
          (finish s len st).params
          (finish s len st).idx
          (len + 1)
  unfolding finish Begun
  finish-Kept start st k b = Kept-weaken url params param_max _ _ _ len k (len + 1) (omega arith)
  finish-Kept after_question st k b =
      Kept-weaken url params param_max _ _ _ len k (len + 1) (omega arith)
  finish-Kept in_name st k b = Kept-weaken url params param_max _ _ _ len k (len + 1) (omega arith)
  finish-Kept after_equal st k (room, name) = no_value-Good url params param_max len st k room name
  finish-Kept in_value st k (room, name, fresh) =
      end_value-Good url params param_max len st k room name fresh

  failed-IsSplit :
      (st : Split) (i : ℕ)
      → i ≤ len
      → Kept url params param_max st.url st.params st.idx i
      → IsSplit url len params param_max (returned param_max len (failed st))
  failed-IsSplit st i h k = record {
    url_behind = λ q b. k.unread q (omega arith);
    params_behind = k.outside;
    count_small = λ n e. absurd (cc e);
    names = λ n j e b. absurd (cc e);
    values = λ n j e b. absurd (cc e);
    rest = λ n j e a b. absurd (cc e);
  }

  finished-IsSplit :
      (last : Split)
      → Kept url params param_max last.url last.params last.idx (len + 1)
      → IsSplit url len params param_max (record {
        count = some last.idx;
        url = last.url;
        params = clear_params (param_max - last.idx) last.idx last.params;
      })
  finished-IsSplit last k = record {
    url_behind = λ q b. k.unread q (omega arith);
    params_behind = λ j b. clear_params_behind _ _ _ j (omega (arith, k.count)) ∙ k.outside j b;
    count_small = λ n e. let same : last.idx ≡ n = cc e in rw (sym same) k.count;
    names = λ n j e b.
        let same : last.idx ≡ n = cc e in
        let kept = clear_params_below (param_max - last.idx) last.idx last.params j (omega arith) in
        subst (λ p. Named url last.url (len + 1) p.name p.name_len) (sym kept)
          (k.names j (omega arith));
    values = λ n j e b.
        let same : last.idx ≡ n = cc e in
        let kept = clear_params_below (param_max - last.idx) last.idx last.params j (omega arith) in
        subst (λ p. Valued url last.url (len + 1) p.value p.value_len) (sym kept)
          (k.values j (omega arith));
    rest = λ n j e a b.
        let same : last.idx ≡ n = cc e in
        clear_params_inside _ _ _ j (omega arith) (omega (arith, k.count));
  }

-- `esq_split_parameters` writes to no parameter from `param_max` on, and to no byte of the URL behind
-- the one at its length. Where it returns a count, the count is at most `param_max`, and every
-- parameter below it has a name that is not empty and a value that is null or not empty, both of them
-- bytes of the URL as it was, with a NUL behind them that lies at the length of the URL or before;
-- the parameters from the count on are cleared.
pub esq_split_parameters-IsSplit :
    (url : Mem) (len : ℕ) (params : ℕ → Parameter) (param_max : ℕ)
    → IsSplit url len params param_max (esq_split_parameters url len params param_max)
unfolding esq_split_parameters Good Begun
esq_split_parameters-IsSplit url len params param_max =
    let (i, le, good, end) = split_loop-Good url params param_max len 0 first (none_yet, tt) in
    read _ i (omega arith) good λ st' e. let h : i ≡ 0 + len = end st' e in omega arith
  where
    first : Split
    first = record {
      url = url;
      params = params;
      state = start;
      idx = 0;
      name_start = 0;
      value_start = 0;
    }

    none_yet : Kept url params param_max url params 0 0
    none_yet = record {
      count = omega arith;
      unread = λ q b. refl;
      names = λ j b. absurd (omega arith);
      values = λ j b. absurd (omega arith);
      outside = λ j b. refl;
    }

    read :
        (t : Turn) (i : ℕ)
        → i ≤ len
        → Good url params param_max i t
        → ((st' : Split) → t ≡ next st' → i ≡ len)
        → IsSplit url len params param_max (returned param_max len t)
    read (failed st) i le good end = failed-IsSplit url len params param_max st i le good
    read (next st) i le (k, b) end =
        let e : i ≡ len = end st refl in
        finished-IsSplit url len params param_max (finish st.state len st) (
          finish-Kept url len params param_max st.state st
            (subst (Kept url params param_max st.url st.params st.idx) e k)
            (subst (λ x. Begun url params param_max st.state x st) e b))
