-- ===== src/Runs/Exec.antt =====
-- Code that awaits calls and may throw: what was logged and assigned before an exception stays.
use fizzy_symphony.Base.{Bool, true, false, Option, none, some, ◌∷◌, Result, ok, err}
use fizzy_symphony.Orchestrator.Types.{Problem}
use fizzy_symphony.Runs.Types.{Call, Log, Outside, World, Kind}

abbrev pub Exec {ℓ} : Type ℓ → Type ℓ
Exec A = World → Result Problem A × World

module _ {ℓ} {A : Type ℓ} where
  unfoldable pub pure : A → Exec A
  pure a w = (ok a, w)

  unfoldable pub raise : Problem → Exec A
  raise e w = (err e, w)

  abbrev pub handle : (Problem → Exec A) → Result Problem A × World → Result Problem A × World
  handle handler (ok a, w) = (ok a, w)
  handle handler (err e, w) = handler e w

  -- `try` and `catch`.
  unfoldable pub attempt : Exec A → (Problem → Exec A) → Exec A
  attempt body handler w = handle handler (body w)

module _ {ℓ κ} {A : Type ℓ} {B : Type κ} where
  abbrev pub proceed : (A → Exec B) → Result Problem A × World → Result Problem B × World
  proceed next (ok a, w) = next a w
  proceed next (err e, w) = (err e, w)

  infixl 5 ◌>>=◌
  unfoldable pub ◌>>=◌ : Exec A → (A → Exec B) → Exec B
  ◌>>=◌ m next w = proceed next (m w)

infixl 5 ◌>>◌
abbrev pub ◌>>◌ {ℓ κ} : {A : Type ℓ} {B : Type κ} → Exec A → Exec B → Exec B
m >> n = m >>= λ _. n

unfoldable pub modify : (World → World) → Exec (Unit {0})
modify f w = (ok tt, f w)

unfoldable pub gets {ℓ} : {A : Type ℓ} → (World → A) → Exec A
gets f w = (ok (f w), w)

unfoldable pub push : Call → Bool → World → World
push c returned w = record w { log = record { call = c; returned = returned } ∷ w.log }

-- What a call does, by what it throws: the answer is asked of the log before it.
unfoldable pub finish {ℓ} : {A : Type ℓ} → Call → (Log → A) → Option Problem → Exec A
unfolding push
finish c answer none w = (ok (answer w.log), push c true w)
finish c answer (some e) w = (err e, push c false w)

unfoldable pub wait : Outside → World → World
wait o w = record w { orchestrator = o.meanwhile w.log w.orchestrator }

-- An awaited call.
unfoldable pub ask {ℓ} : {A : Type ℓ} → Outside → Call → (Log → A) → Exec A
unfolding finish wait
ask o c answer w = finish c answer (o.throws w.log c) (wait o w)

-- An awaited call whose answer is not used.
unfoldable pub call : Outside → Call → Exec (Unit {0})
unfolding ask
call o c = ask o c (λ l. tt)

unfoldable pub set_kind : Kind → Exec (Unit {0})
unfolding modify
set_kind k = modify λ w. record w { failure_kind = k }
