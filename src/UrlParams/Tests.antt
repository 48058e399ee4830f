-- ===== src/UrlParams/Tests.antt =====
-- Runs on "?a=1?b=%41" and "?a=1", and the theorems of the siblings there.
use esq.Base.{ℕ, ◌<◌, ◌≡◌, ◌≢◌, refl, none, some, [], ◌∷◌, Mem, literal, store}
use esq.EscapePercent.{hex_pair, escape_loop, escape_percent_in_place}
use esq.UrlParams.Escape.{
  Ending, escaped, escape_text, escape_params, esq_url_parames_escape_in_place,
  esq_url_parames_escape_in_place-ne-null,
}
use esq.UrlParams.{
  Parameter, cleared, char_type, turn, end_name, end_value, no_value, set_param, split_loop, finish,
  clear_params, Result, esq_split_parameters,
}
use esq.UrlParams.Outcome.{IsSplit, esq_split_parameters-IsSplit}

abbrev url : Mem
url = literal (b'?' ∷ b'a' ∷ b'=' ∷ b'1' ∷ b'?' ∷ b'b' ∷ b'=' ∷ b'%' ∷ b'4' ∷ b'1' ∷ [])

abbrev no_params : ℕ → Parameter
no_params j = cleared

abbrev result : Result
result = esq_split_parameters url 10 no_params 3

two_found : result.count ≡ some 2
unfolding esq_split_parameters split_loop char_type turn end_name end_value no_value set_param store
    finish clear_params
two_found = refl

-- The '%' at the start of a value is skipped: the value begins with the digits behind it.
percent_skipped : (result.params 1).value ≡ some 8
unfolding esq_split_parameters split_loop char_type turn end_name end_value no_value set_param store
    finish clear_params
percent_skipped = refl

esq_split_parameters-IsSplit_example :
    IsSplit url 10 no_params 3 (esq_split_parameters url 10 no_params 3)
esq_split_parameters-IsSplit_example = esq_split_parameters-IsSplit url 10 no_params 3

abbrev room : ℕ
room = 1

abbrev full : Result
full = esq_split_parameters (literal (b'?' ∷ b'a' ∷ b'=' ∷ b'1' ∷ [])) 4 no_params 1

full_count : full.count ≡ some 1
unfolding esq_split_parameters split_loop char_type turn end_name end_value no_value set_param store
    finish clear_params
full_count = refl

abbrev full_run : Ending
full_run = esq_url_parames_escape_in_place full.url full.params 1

abbrev memory_of : Ending → Mem
memory_of (escaped m ps) = m
memory_of e = url

abbrev params_of : Ending → ℕ → Parameter
params_of (escaped m ps) = ps
params_of e = no_params

full_run_returns : full_run ≡ escaped (memory_of full_run) (params_of full_run)
unfolding esq_split_parameters split_loop char_type turn end_name end_value no_value set_param store
    finish clear_params esq_url_parames_escape_in_place escape_params escape_text
    escape_percent_in_place escape_loop hex_pair
full_run_returns = refl

esq_url_parames_escape_in_place-ne-null_example :
    (1 ≡ room) × ((j : ℕ) → j < 1 → (full.params j).value ≢ none)
esq_url_parames_escape_in_place-ne-null_example =
    esq_url_parames_escape_in_place-ne-null (literal (b'?' ∷ b'a' ∷ b'=' ∷ b'1' ∷ [])) 4 no_params
      room 1 (memory_of full_run) (params_of full_run) full_count full_run_returns
