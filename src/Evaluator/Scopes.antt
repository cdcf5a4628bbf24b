-- ===== src/Evaluator/Scopes.antt =====
-- How a computation of the evaluator leaves the environment: rules for the ways in which they are
-- put together.
use heluna_language.Common.{
  ◌-◌, ◌≡◌, refl, Bool, true, false, List, [], ◌∷◌, ◌++◌, if◌then◌else◌, Bytes, length,
  length-append, drop-append, append_assoc, arith, ap, sym, ◌∙◌, subst, Bool-cases, inl, inr,
}
use heluna_language.Value.{HVal, HVals, no_items, item, val_list}
use heluna_language.Evaluator.State.{
  M, Result, EvalState, EnvEntry, pure, returned, null, undefined, on_result, eval_error, env_push,
  env_restore, ◌>>=◌,
}
use heluna_language.Evaluator.Parts.{
  unless_error, finish, in_scope, filter_loop, map_loop, filter_list, map_list, run_clause,
  both_match, choose, no_match,
}

-- The environment is `base` with newer entries on top.
abbrev pub Extends : List EnvEntry → List EnvEntry → Type 0
Extends base env = (newer : List EnvEntry) × (env ≡ newer ++ base)

-- Where a value is returned the environment is `base` again; a NULL may leave entries behind.
abbrev pub Balanced : {A : Type 0} → List EnvEntry → Result A → Type 0
Balanced base (returned v t) = t.env ≡ base
Balanced base (null t) = Extends base t.env
Balanced base undefined = Unit

-- Entries may be left behind in any case.
abbrev pub Growing : {A : Type 0} → List EnvEntry → Result A → Type 0
Growing base (returned v t) = Extends base t.env
Growing base (null t) = Extends base t.env
Growing base undefined = Unit

abbrev pub KeepsEnv : {A : Type 0} → M A → Type 0
KeepsEnv m = (s : EvalState) → Balanced s.env (m s)

abbrev pub GrowsEnv : {A : Type 0} → M A → Type 0
GrowsEnv m = (s : EvalState) → Growing s.env (m s)

pub Extends-refl : (base : List EnvEntry) → Extends base base
Extends-refl base = ([], refl)

pub Extends-trans : {a b c : List EnvEntry} → Extends a b → Extends b c → Extends a c
Extends-trans {a} (p, e) (q, f) = (q ++ p, f ∙ ap (λ t. q ++ t) e ∙ sym (append_assoc q p a))

Balanced-Growing :
    {A : Type 0} (base : List EnvEntry) (r : Result A) → Balanced base r → Growing base r
Balanced-Growing base (returned v t) h = ([], h)
Balanced-Growing base (null t) h = h
Balanced-Growing base undefined h = tt

-- A computation that starts on a larger environment.
pub Growing-below :
    {A : Type 0} {base env : List EnvEntry} (r : Result A)
    → Extends base env
    → Growing env r
    → Growing base r
Growing-below (returned v t) e h = Extends-trans e h
Growing-below (null t) e h = Extends-trans e h
Growing-below undefined e h = tt

pub pure-KeepsEnv : {A : Type 0} (a : A) → KeepsEnv (pure a)
pure-KeepsEnv a s = refl

pub eval_error-KeepsEnv : (A : Type 0) (text : Bytes) → KeepsEnv (eval_error {A = A} text)
unfolding eval_error
eval_error-KeepsEnv A text s = elim (Bool-cases s.had_error) [
  | inl e ↦ simp e ([], refl)
  | inr e ↦ simp e ([], refl)
]

pub unless_error-KeepsEnv : {A : Type 0} (m : M A) → KeepsEnv m → KeepsEnv (unless_error m)
unless_error-KeepsEnv {A} m h s = go s.had_error
  where
    go : (b : Bool) → Balanced s.env (if b then null s else m s)
    go true = ([], refl)
    go false = h s

on_result-Balanced :
    {A B : Type 0} {base : List EnvEntry} (r : Result A) (f : A → M B)
    → Balanced base r
    → ((a : A) (t : EvalState) → t.env ≡ base → Balanced base (f a t))
    → Balanced base (on_result r f null)
on_result-Balanced (returned a t) f h k = k a t h
on_result-Balanced (null t) f h k = h
on_result-Balanced undefined f h k = tt

at_base :
    {A : Type 0} {base : List EnvEntry} (m : M A) (t : EvalState)
    → KeepsEnv m
    → t.env ≡ base
    → Balanced base (m t)
at_base m t h e = subst (λ b. Balanced b (m t)) e (h t)

pub bind-KeepsEnv :
    {A B : Type 0} (m : M A) (f : A → M B)
    → KeepsEnv m
    → ((a : A) → KeepsEnv (f a))
    → KeepsEnv (m >>= f)
bind-KeepsEnv m f h k s = on_result-Balanced (m s) f (h s) λ a t e. at_base (f a) t (k a) e

restore_to :
    {base : List EnvEntry} (t : EvalState)
    → Extends base t.env
    → (env_restore (length base) t).env ≡ base
unfolding env_restore
restore_to {base} t (p, e) =
    let n : length t.env - length base ≡ length p =
      omega (arith, ap length e, length-append p base) in
    rw n (rw e (drop-append p base))

pub finish-Balanced :
    (base : List EnvEntry) (r : Result HVal)
    → Growing base r
    → Balanced base (finish (length base) r)
finish-Balanced base (returned v t) h = restore_to t h
finish-Balanced base (null t) h = ([], restore_to t h)
finish-Balanced base undefined h = tt

env_push-Extends : (name : Bytes) (v : HVal) (s : EvalState) → Extends s.env (env_push name v s).env
unfolding env_push
env_push-Extends name v s = (record { name = name; value = v } ∷ [], refl)

pub in_scope-KeepsEnv :
    (name : Bytes) (v : HVal) (run : M HVal) → KeepsEnv run → KeepsEnv (in_scope name v run)
in_scope-KeepsEnv name v run h s =
    let r = run (env_push name v s) in
    finish-Balanced s.env r
      (Growing-below r (env_push-Extends name v s) (Balanced-Growing _ r (h (env_push name v s))))

round-Growing :
    (base : List EnvEntry) (name : Bytes) (v : HVal) (run : M HVal) (s : EvalState)
    → KeepsEnv run
    → Extends base s.env
    → Growing base (run (env_push name v (env_restore (length base) s)))
round-Growing base name v run s h e =
    let s₀ = env_restore (length base) s in
    let r = run (env_push name v s₀) in
    let grown =
      Growing-below r (env_push-Extends name v s₀)
        (Balanced-Growing _ r (h (env_push name v s₀))) in
    subst (λ b. Growing b r) (restore_to s e) grown

on_result-loop :
    {A B : Type 0} (base : List EnvEntry) (r : Result A) (f : A → M B)
    → Growing base r
    → ((a : A) (t : EvalState) → Extends base t.env → Balanced base (f a t))
    → Balanced base (on_result r f null)
on_result-loop base (returned a t) f h k = k a t h
on_result-loop base (null t) f h k = h
on_result-loop base undefined f h k = tt

mapped-Balanced :
    {A B : Type 0} (base : List EnvEntry) (r : Result A) (f : A → B)
    → Balanced base r
    → Balanced base (on_result r (λ a u. returned (f a) u) null)
mapped-Balanced base (returned a t) f h = h
mapped-Balanced base (null t) f h = h
mapped-Balanced base undefined f h = tt

filter_loop-Balanced :
    (base : List EnvEntry) (name : Bytes) (run : M HVal) (vs : HVals) (s : EvalState)
    → KeepsEnv run
    → Extends base s.env
    → Balanced base (filter_loop (length base) name run vs s)
unfolding filter_loop
filter_loop-Balanced base name run no_items s h e = restore_to s e
filter_loop-Balanced base name run (item v vs) s h e =
    on_result-loop base _ _ (round-Growing base name v run s h e) λ test t g.
      mapped-Balanced base (filter_loop (length base) name run vs t) _
        (filter_loop-Balanced base name run vs t h g)

map_loop-Balanced :
    (base : List EnvEntry) (name : Bytes) (run : M HVal) (vs : HVals) (s : EvalState)
    → KeepsEnv run
    → Extends base s.env
    → Balanced base (map_loop (length base) name run vs s)
unfolding map_loop
map_loop-Balanced base name run no_items s h e = restore_to s e
map_loop-Balanced base name run (item v vs) s h e =
    on_result-loop base _ _ (round-Growing base name v run s h e) λ test t g.
      mapped-Balanced base (map_loop (length base) name run vs t) _
        (map_loop-Balanced base name run vs t h g)

pub filter_list-KeepsEnv :
    (text name : Bytes) (run : M HVal) (v : HVal)
    → KeepsEnv run
    → KeepsEnv (filter_list text name run v)
unfolding filter_list
filter_list-KeepsEnv text name run (val_list vs) h s =
    mapped-Balanced s.env (filter_loop (length s.env) name run vs s) val_list
      (filter_loop-Balanced s.env name run vs s h (Extends-refl s.env))
filter_list-KeepsEnv text name run _ h s = eval_error-KeepsEnv HVal text s

pub map_list-KeepsEnv :
    (text name : Bytes) (run : M HVal) (v : HVal)
    → KeepsEnv run
    → KeepsEnv (map_list text name run v)
unfolding map_list
map_list-KeepsEnv text name run (val_list vs) h s =
    mapped-Balanced s.env (map_loop (length s.env) name run vs s) val_list
      (map_loop-Balanced s.env name run vs s h (Extends-refl s.env))
map_list-KeepsEnv text name run _ h s = eval_error-KeepsEnv HVal text s

pub choose-KeepsEnv :
    (test : Bool) (a b : M HVal) → KeepsEnv a → KeepsEnv b → KeepsEnv (choose test a b)
choose-KeepsEnv true a b h k s = h s
choose-KeepsEnv false a b h k s = k s

pub both_match-GrowsEnv :
    (first second : EvalState → Result Bool)
    → GrowsEnv first
    → GrowsEnv second
    → GrowsEnv (both_match first second)
both_match-GrowsEnv first second h k s = go (first s) (h s)
  where
    go :
        (r : Result Bool)
        → Growing s.env r
        → Growing s.env
            (on_result r (λ m t. elim m [ true ↦ second t | false ↦ no_match t ]) no_match)
    go (returned true t) g = Growing-below (second t) g (k t)
    go (returned false t) g = g
    go (null t) g = g
    go undefined g = tt

pub run_clause-KeepsEnv :
    (pattern : EvalState → Result Bool) (guard : M Bool) (body others : M HVal)
    → GrowsEnv pattern
    → KeepsEnv guard
    → KeepsEnv body
    → KeepsEnv others
    → KeepsEnv (run_clause pattern guard body others)
run_clause-KeepsEnv pattern guard body others p g b o s = matched_to (pattern s) (p s)
  where
    base : List EnvEntry
    base = s.env

    same : (t u : EvalState) → Extends base t.env → u.env ≡ t.env → Extends base u.env
    same t u e q = subst (Extends base) (sym q) e

    guarded_to :
        (t : EvalState) (q : Result Bool)
        → Extends base t.env
        → Balanced t.env q
        → Balanced base (
            on_result q
              (λ c u. elim c [
                | true ↦ finish (length base) (body u)
                | false ↦ others (env_restore (length base) u)
              ])
              null)
    guarded_to t (returned true u) e q =
        finish-Balanced base (body u)
          (Growing-below (body u) (same t u e q) (Balanced-Growing u.env (body u) (b u)))
    guarded_to t (returned false u) e q =
        at_base others (env_restore (length base) u) o (restore_to u (same t u e q))
    guarded_to t (null u) e q = Extends-trans e q
    guarded_to t undefined e q = tt

    matched_to :
        (r : Result Bool)
        → Growing base r
        → Balanced base (
            on_result r
              (λ m t. elim m [
                | true ↦
                    on_result
                      (guard t)
                      (λ c u. elim c [
                        | true ↦ finish (length base) (body u)
                        | false ↦ others (env_restore (length base) u)
                      ])
                      null
                | false ↦ others (env_restore (length base) t)
              ])
              null)
    matched_to (returned true t) e = guarded_to t (guard t) e (g t)
    matched_to (returned false t) e =
        at_base others (env_restore (length base) t) o (restore_to t e)
    matched_to (null t) e = e
    matched_to undefined e = tt
