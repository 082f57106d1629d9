-- ===== src/Server/Startup.antt =====
-- What a start leaves open.
use linea_server.Prelude.{ℕ, ◌+◌, ◌≡◌, refl, inl, inr, String, str_eq, ◌&&◌, arith, Bool-cases}
use linea_server.Result.{Result, ok, err, Result-cases}
use linea_server.Result.Exec.{Exec}
use linea_server.Result.Exec.Triple.{Post, Triple, Triple-bind, Triple-then, Triple-return}
use linea_server.Prelude.Float64.{Float64}
use linea_server.Config.{Environment, Config, getenv, from_env, auth_disabled}
use linea_server.Platform.Badger.{Badger, Db}
use linea_server.Tenants.{Stores, Manager, new_manager}
use linea_server.Server.{
  Calls, World, open_platform, close_platform, close_both, or_close, make_verifier,
  register_handlers, new_server, start_with, start,
}

-- How many platform databases a start leaves open.
abbrev pub left_open : {A : Type 0} → Result A → ℕ
left_open (ok a) = 1
left_open (err e) = 0

module _ ⦃B : Badger⦄ ⦃S : Stores⦄ where
  abbrev Opens : ℕ → World → Type 0
  Opens n w = w.open_dbs ≡ n

  open_platform-Triple :
      (calls : Calls) (path : String) (n : ℕ)
      → Triple (Opens n) (Opens n) (open_platform calls path) (λ _. Opens (1 + n))
  unfolding open_platform
  open_platform-Triple calls path n = record {
    at = λ w p. elim (Result-cases (calls.open_db (str_eq path "") path)) [
      | inl (db, h) ↦ rw h (omega arith)
      | inr (e, h) ↦ rw h p
    ];
  }

  or_close-Triple :
      {A : Type 0} (r : Result A) (cleanup : Exec World (Unit {0})) (n : ℕ)
      → ((w : World) → Opens (1 + n) w → Opens n (cleanup w).1)
      → Triple (Opens n) (Opens (1 + n)) (or_close r cleanup) (λ _. Opens (1 + n))
  unfolding or_close
  or_close-Triple (ok a) cleanup n closes = record { at = λ w p. p }
  or_close-Triple (err e) cleanup n closes = record { at = closes }

  close_platform_lem :
      (calls : Calls) (db : Db) (n : ℕ) (w : World)
      → Opens (1 + n) w
      → Opens n (close_platform calls db w).1
  unfolding close_platform
  close_platform_lem calls db n w p = omega arith

  close_both_lem :
      (calls : Calls) (m : Manager) (db : Db) (n : ℕ) (w : World)
      → Opens (1 + n) w
      → Opens n (close_both calls m db w).1
  unfolding close_both close_platform
  close_both_lem calls m db n w p = omega arith

module _ ⦃B : Badger⦄ ⦃S : Stores⦄ ⦃F : Float64⦄ where
  new_server-Triple :
      (calls : Calls) (env : Environment) (cfg : Config) (version : String) (n : ℕ)
      → Triple (Opens n) (Opens n) (new_server calls env cfg version) (λ _. Opens (1 + n))
  unfolding new_server
  new_server-Triple calls env cfg version n =
      Triple-bind (open_platform-Triple calls (calls.join cfg.data_dir "platform") n) (λ db.
        Triple-bind (or_close-Triple (new_manager _) _ n (close_platform_lem calls db n)) (λ m.
          Triple-bind
            (or_close-Triple (make_verifier calls env cfg) _ n (close_both_lem calls m db n))
            (λ v.
              Triple-then
                (or_close-Triple (register_handlers calls cfg.grpc_addr) _ n
                  (close_both_lem calls m db n))
                (Triple-return _ (λ w p. p)))))

  Post-left_open :
      {A : Type 0} (r : Result A) (n : ℕ) (w : World)
      → Post (Opens n) (λ _. Opens (1 + n)) r w
      → w.open_dbs ≡ left_open r + n
  Post-left_open (ok a) n w p = omega arith
  Post-left_open (err e) n w p = omega arith

  start_with-left_open :
      (calls : Calls) (env : Environment) (version : String) (r : Result Config) (w : World)
      → (start_with calls env version r w).1.open_dbs
        ≡ left_open (start_with calls env version r w).0 + w.open_dbs
  unfolding start_with
  start_with-left_open calls env version (err e) w = omega arith
  start_with-left_open calls env version (ok cfg) w =
      elim (Bool-cases
        (auth_disabled cfg && env.equal_fold (getenv env "LINEA_ENV") "production")) [
          | inl refused ↦ rw refused (omega arith)
          | inr served ↦ rw served (
              Post-left_open (new_server calls env cfg version w).0 w.open_dbs
                (new_server calls env cfg version w).1
                ((new_server-Triple calls env cfg version w.open_dbs).at w refl))
        ]

  -- A start leaves one more platform database open if it succeeds, and none if it fails, wherever
  -- it fails.
  pub start-left_open :
      (calls : Calls) (env : Environment) (version : String) (w : World)
      → (start calls env version w).1.open_dbs
        ≡ left_open (start calls env version w).0 + w.open_dbs
  unfolding start
  start-left_open calls env version w = start_with-left_open calls env version (from_env env) w
