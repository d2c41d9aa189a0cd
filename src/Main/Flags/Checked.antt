-- ===== src/Main/Flags/Checked.antt =====
-- What the program goes on with after `parseFlags`.
use celery_to_go.Prelude.{
  String, true, false, List, ◌≡◌, ◌≢◌, refl, subst, ◌⊎◌, inl, inr, ◌==◌, eq_iff, Bool-cases, arith,
}
use celery_to_go.Prelude.Errors.{Error, reply, failed, Reply-cases}
use celery_to_go.Main.Flags.{
  Config, OrExit, goes_on, exits, Cli, resolve_script, check_flags, parse_flags, default_flags,
}

-- The flags after `parseFlags`: a queue, the environment of the program for its processes, and a path of
-- the script that is absolute unless the working directory is not to be had.
pub record IsChecked (cli : Cli) (environ : List String) (config : Config) : Type 0 where
  pub has_queue : config.queue_url ≢ ""
  pub environment_passed : config.process_env ≡ environ
  pub script :
      (cli.is_abs config.worker_script_path ≡ true)
      ⊎ ((e : Error) × (cli.abs config.worker_script_path ≡ failed e))

not_empty : (s : String) → (s == "") ≡ false → s ≢ ""
not_empty s present empty = ground (arith, eq_iff s "")

resolve_script_lem :
    (cli : Cli) (path : String)
    → ((p a : String) → cli.abs p ≡ reply a → cli.is_abs a ≡ true)
    → (cli.is_abs (resolve_script cli path) ≡ true)
      ⊎ ((e : Error) × (cli.abs (resolve_script cli path) ≡ failed e))
unfolding resolve_script
resolve_script_lem cli path makes_abs = elim (Bool-cases (cli.is_abs path)) [
  | inl absolute ↦ inl (rw (absolute, resolve_script) absolute)
  | inr relative ↦ elim (Reply-cases (cli.abs path)) [
    | inl (a, made) ↦ inl (rw (relative, made, resolve_script) (makes_abs path a made))
    | inr (e, fails) ↦ inr (e, rw (relative, fails, resolve_script) fails)
  ]
]

check_flags-IsChecked :
    (cli : Cli) (environ : List String) (parsed config : Config)
    → ((p a : String) → cli.abs p ≡ reply a → cli.is_abs a ≡ true)
    → check_flags cli environ parsed ≡ goes_on config
    → IsChecked cli environ config
unfolding check_flags
check_flags-IsChecked cli environ parsed config makes_abs e =
    elim (Bool-cases (parsed.queue_url == "")) [
      | inl missing ↦ cc (rw (missing, check_flags) at e)
      | inr present ↦
          let made : record parsed {
            worker_script_path = resolve_script cli parsed.worker_script_path;
            process_env = environ;
          }
              ≡ config =
            ground (arith, rw (present, check_flags) at e) in
          subst (IsChecked cli environ) made (record {
            has_queue = λ empty. not_empty parsed.queue_url present empty;
            environment_passed = refl;
            script = resolve_script_lem cli parsed.worker_script_path makes_abs;
          })
    ]

-- If `filepath.Abs` makes absolute paths, then flags with which the program goes on after `parseFlags` have
-- a queue URL, pass the environment of the program on to its processes, and have an absolute path of
-- the worker script, or one that `filepath.Abs` cannot make absolute.
pub parse_flags-IsChecked :
    (cli : Cli) (environ : List String) (config : Config)
    → ((p a : String) → cli.abs p ≡ reply a → cli.is_abs a ≡ true)
    → parse_flags cli environ ≡ goes_on config
    → IsChecked cli environ config
unfolding parse_flags
parse_flags-IsChecked cli environ config makes_abs = by_parse (cli.parse default_flags) refl
  where
    by_parse :
        (r : OrExit Config)
        → cli.parse default_flags ≡ r
        → parse_flags cli environ ≡ goes_on config
        → IsChecked cli environ config
    by_parse (exits n) ends e = cc (rw (ends, parse_flags) at e)
    by_parse (goes_on parsed) goes e =
        check_flags-IsChecked cli environ parsed config makes_abs (rw (goes, parse_flags) at e)
