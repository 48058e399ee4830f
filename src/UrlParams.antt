-- ===== src/UrlParams.antt =====
-- libs/url-parameters-spliter/url-parameters-spliter.c: "?a=xxx?b=yyy" split in place.
pub mod Texts
pub mod Kept
pub mod Outcome
pub mod Escape
mod Tests
use esq.Base.{
  ℕ, zero, suc, ◌+◌, ◌-◌, ◌||◌, Bool, true, false, Option, none, some, ltb, ◌==◌, if◌then◌else◌,
  within, Mem, store,
}

-- `esq_url_parameter_t`. A pointer is an offset into the URL, NULL is `none`.
pub record Parameter : Type 0 where
  pub name : Option ℕ
  pub value : Option ℕ
  pub name_len : ℕ
  pub value_len : ℕ

-- The values of `esq_param_spliter_char_type`: letters and digits are its 1, 2 and 3, which the
-- code treats alike.
pub data CharType : Type 0 where
  other alnum percent equal question : CharType

unfoldable pub char_type : ℕ → CharType
char_type c =
    if within b'0' b'9' c || within b'A' b'Z' c || within b'a' b'z' c
    then alnum
    else if c == b'%'
    then percent
    else if c == b'='
    then equal
    else if c == b'?'
    then question
    else other

-- S, Aq, Name, Ae and Value.
pub data State : Type 0 where
  start after_question in_name after_equal in_value : State

-- The URL and the parameters in memory, and the variables of the function.
pub record Split : Type 0 where
  pub url : Mem
  pub params : ℕ → Parameter
  pub state : State
  pub idx : ℕ
  pub name_start : ℕ
  pub value_start : ℕ

-- `param[idx] = ...`
unfoldable pub set_param : (ℕ → Parameter) → ℕ → Parameter → ℕ → Parameter
set_param params idx p j = if j == idx then p else params j

-- The URL and the parameters at the return of -1, or the loop goes on.
pub data Turn : Type 0 where
  failed : Split → Turn
  next : Split → Turn

abbrev with_state : Split → State → Split
with_state st s = record st { state = s }

-- The name ends at `i`.
unfoldable pub end_name : ℕ → Split → Split
unfolding set_param store
end_name i st = record st {
  state = after_equal;
  url = store st.url i 0;
  params =
      set_param st.params st.idx
        (record (st.params st.idx) { name = some st.name_start; name_len = i - st.name_start });
}

-- The value ends at `i`.
unfoldable pub end_value : ℕ → Split → Split
unfolding set_param store
end_value i st = record st {
  state = after_question;
  url = store st.url i 0;
  params =
      set_param st.params st.idx
        (record (st.params st.idx) { value = some st.value_start; value_len = i - st.value_start });
  idx = st.idx + 1;
}

-- There is no value.
unfoldable pub no_value : Split → Split
unfolding set_param
no_value st = record st {
  state = after_question;
  params = set_param st.params st.idx (record (st.params st.idx) { value = none; value_len = 0 });
  idx = st.idx + 1;
}

-- The turn of the loop at `i`, on a byte of the given type in the given state.
unfoldable pub turn : ℕ → ℕ → State → CharType → Split → Turn
unfolding end_name end_value no_value
turn param_max i start question st = next (with_state st after_question)
turn param_max i start r st = failed st
turn param_max i after_question alnum st = next (record st { name_start = i; state = in_name })
turn param_max i after_question percent st = failed st
turn param_max i after_question question st = next st
turn param_max i after_question equal st = next st
turn param_max i after_question other st = failed st
turn param_max i in_name alnum st = next st
turn param_max i in_name percent st = failed st
turn param_max i in_name equal st = if ltb st.idx param_max then next (end_name i st) else failed st
turn param_max i in_name question st = failed st
turn param_max i in_name other st = failed st
turn param_max i after_equal alnum st = next (record st { state = in_value; value_start = i })
turn param_max i after_equal percent st = next st
turn param_max i after_equal equal st = failed st
turn param_max i after_equal question st = next (no_value st)
turn param_max i after_equal other st = failed st
turn param_max i in_value alnum st = next st
turn param_max i in_value percent st = next st
turn param_max i in_value equal st = next st
turn param_max i in_value question st = next (end_value i st)
turn param_max i in_value other st = failed st

-- The loop at `i`, with `n` bytes to go.
unfoldable pub split_loop : ℕ → ℕ → ℕ → Split → Turn
unfolding turn char_type
split_loop param_max i zero st = next st
split_loop param_max i (suc n) st = elim (turn param_max i st.state (char_type (st.url i)) st) [
  | failed st' ↦ failed st'
  | next st' ↦ split_loop param_max (i + 1) n st'
]

-- The code behind the loop, where `i` is the length of the URL. The state is not read again.
unfoldable pub finish : State → ℕ → Split → Split
unfolding end_value no_value
finish start i st = st
finish after_question i st = st
finish in_name i st = st
finish after_equal i st = no_value st
finish in_value i st = end_value i st

abbrev pub cleared : Parameter
cleared = record { name = none; value = none; name_len = 0; value_len = 0 }

-- The loop that clears `n` parameters from `i`.
unfoldable pub clear_params : ℕ → ℕ → (ℕ → Parameter) → ℕ → Parameter
unfolding set_param
clear_params zero i params = params
clear_params (suc n) i params = clear_params n (i + 1) (set_param params i cleared)

-- What the function returns, -1 as `none`, with the URL and the parameters in memory.
pub record Result : Type 0 where
  pub count : Option ℕ
  pub url : Mem
  pub params : ℕ → Parameter

abbrev pub returned : ℕ → ℕ → Turn → Result
returned param_max url_len (failed st) = record { count = none; url = st.url; params = st.params }
returned param_max url_len (next st) =
    let last = finish st.state url_len st in
    record {
      count = some last.idx;
      url = last.url;
      params = clear_params (param_max - last.idx) last.idx last.params;
    }

unfoldable pub esq_split_parameters : Mem → ℕ → (ℕ → Parameter) → ℕ → Result
unfolding split_loop finish clear_params
esq_split_parameters url url_len params param_max = returned param_max url_len (
    split_loop param_max 0 url_len (record {
      url = url;
      params = params;
      state = start;
      idx = 0;
      name_start = 0;
      value_start = 0;
    }))
