-- ===== src/Evaluator/State.antt =====
-- The state of src/evaluator.c (`Evaluator`): its environment, its error, and what a call returns.
use heluna_language.Common.{
  ℕ, ◌-◌, ◌*◌, Bool, true, Option, none, some, List, [], ◌∷◌, ◌==◌, if◌then◌else◌, length, drop,
  take, Bytes, str_eq,
}
use heluna_language.Value.{HVal}

pub record EnvEntry : Type 0 where
  pub name : Bytes
  pub value : HVal

-- `env` is the array's live cells, those below `env_count`, the newest first; so `env_count` is its
-- length. `error` is the message, empty before the first error.
pub record EvalState : Type 0 where
  pub env : List EnvEntry
  pub env_capacity : ℕ
  pub input_record : Option HVal
  pub had_error : Bool
  pub error : Bytes

-- A call returns a value, or NULL, or it does what C leaves undefined.
pub data Result (A : Type 0) : Type 0 where
  returned : A → EvalState → Result A
  null : EvalState → Result A
  undefined : Result A

abbrev pub M : Type 0 → Type 0
M A = EvalState → Result A

abbrev pub pure : {A : Type 0} → A → M A
pure a s = returned a s

abbrev pub on_result :
    {A B : Type 0} → Result A → (A → EvalState → Result B) → (EvalState → Result B) → Result B
on_result (returned a s) f g = f a s
on_result (null s) f g = g s
on_result undefined f g = undefined

-- `if (!v) return NULL;` behind each call.
infixl 5 ◌>>=◌
abbrev pub ◌>>=◌ : {A B : Type 0} → M A → (A → M B) → M B
◌>>=◌ m f s = on_result (m s) f null

-- The buffer of a message holds 512 bytes with its terminator.
abbrev pub message : Bytes → Bytes
message text = take 511 text

-- `eval_error`, which keeps the first error, and the `return NULL` behind it.
unfoldable pub eval_error : {A : Type 0} → Bytes → M A
eval_error text s =
    null (if s.had_error then s else record s { had_error = true; error = message text })

-- `heluna_error_set` on the evaluator's error by a library function.
unfoldable pub error_set : Bytes → EvalState → EvalState
error_set text s = record s { error = message text }

unfoldable pub env_push : Bytes → HVal → EvalState → EvalState
env_push name value s = record s {
  env = record { name = name; value = value } ∷ s.env;
  env_capacity =
      if length s.env == s.env_capacity
      then if s.env_capacity == 0 then 32 else s.env_capacity * 2
      else s.env_capacity;
}

-- `ev->env_count = mark`: the cells below the mark are left.
unfoldable pub env_restore : ℕ → EvalState → EvalState
env_restore mark s = record s { env = drop (length s.env - mark) s.env }

abbrev pub env_mark : EvalState → ℕ
env_mark s = length s.env

-- From the newest entry down.
unfoldable pub env_find : List EnvEntry → Bytes → Option HVal
env_find [] name = none
env_find (e ∷ es) name = if str_eq e.name name then some e.value else env_find es name

unfoldable pub env_lookup : EvalState → Bytes → Option HVal
env_lookup s name = env_find s.env name
