-- ===== src/Supervisor/Inherit.antt =====
-- supervisor.rs and supervisor/self_upgrade.rs: a successor adopts the workers that its predecessor ran.
use five_nines_echo.Base.{
  ℕ, ◌^◌, ◌<◌, ◌≡◌, refl, ap, ◌∙◌, String, string_key, ◌==◌, true, false, Option, none, some,
}
use five_nines_echo.Supervisor.{
  Env, scrub_fdpass_env, ControlFds, AdoptedState, or_zero, Numbers, and_parsed, with_pid, with_fds,
  with_pids, successor_env, env_pid, env_generation, adopted_of,
}

-- Each type reads back what is printed of the numbers that it holds.
pub record IsText (num : Numbers) : Type 0 where
  pub i32 : (n : ℕ) → n < 2 ^ 31 → num.parse_i32 (num.print n) ≡ some n
  pub u32 : (n : ℕ) → n < 2 ^ 32 → num.parse_u32 (num.print n) ≡ some n
  pub u64 : (n : ℕ) → n < 2 ^ 64 → num.parse_u64 (num.print n) ≡ some n

abbrev pub IsPid : Option ℕ → Type 0
IsPid none = Unit
IsPid (some pid) = pid < 2 ^ 32

pub record IsWords (s : AdoptedState) : Type 0 where
  pub pids : IsPid s.processor × IsPid s.plain × IsPid s.tls × IsPid s.scanner
  pub gens :
      (s.processor_gen < 2 ^ 64)
      × (s.plain_gen < 2 ^ 64)
      × (s.tls_gen < 2 ^ 64)
      × (s.scanner_gen < 2 ^ 64)

-- The generation of a worker that runs.
abbrev pub running : Option ℕ → ℕ → ℕ
running none generation = 0
running (some pid) generation = generation

module _ (num : Numbers) where
  skipped :
      (pid_key gen_key k : String) (o : Option ℕ) (g : ℕ) (env : Env)
      → (k == pid_key) ≡ false
      → (k == gen_key) ≡ false
      → with_pid num pid_key gen_key o g env k ≡ env k
  skipped pid_key gen_key k none g env e f = refl
  skipped pid_key gen_key k (some pid) g env e f = rw (f, e) refl

  module _ (law : IsText num) where
    read_pid :
        (o : Option ℕ) (g : ℕ) (pid_key gen_key : String) (env : Env)
        → IsPid o
        → (pid_key == gen_key) ≡ false
        → (pid_key == pid_key) ≡ true
        → env pid_key ≡ none
        → env_pid num pid_key (with_pid num pid_key gen_key o g env) ≡ o
    read_pid none g pid_key gen_key env b e f u = rw u refl
    read_pid (some pid) g pid_key gen_key env b e f u = rw (e, f) (law.u32 pid b)

    read_gen :
        (o : Option ℕ) (g : ℕ) (pid_key gen_key : String) (env : Env)
        → g < 2 ^ 64
        → (gen_key == gen_key) ≡ true
        → env gen_key ≡ none
        → env_generation num gen_key (with_pid num pid_key gen_key o g env) ≡ running o g
    read_gen none g pid_key gen_key env b f u = rw u refl
    read_gen (some pid) g pid_key gen_key env b f u = rw f (ap or_zero (law.u64 g b))

    -- Between a supervisor of this environment and its successor.
    module _ (fds : ControlFds) (s : AdoptedState) (generation ready_fd : ℕ) (env : Env)
        (w : IsWords s) where
      abbrev listeners : Env
      listeners = with_fds num fds (scrub_fdpass_env env)

      abbrev processors : Env
      processors =
          with_pid num "FDPASS_PROCESSOR_PID" "FDPASS_PROCESSOR_GEN" s.processor s.processor_gen
            listeners

      abbrev plains : Env
      plains = with_pid num "FDPASS_PLAIN_PID" "FDPASS_PLAIN_GEN" s.plain s.plain_gen processors

      abbrev tlses : Env
      tlses = with_pid num "FDPASS_TLS_PID" "FDPASS_TLS_GEN" s.tls s.tls_gen plains

      skip_processor :
          (k : String)
          → (k == "FDPASS_PROCESSOR_PID") ≡ false
          → (k == "FDPASS_PROCESSOR_GEN") ≡ false
          → processors k ≡ listeners k
      skip_processor k e f =
          skipped "FDPASS_PROCESSOR_PID" "FDPASS_PROCESSOR_GEN" k s.processor s.processor_gen
            listeners e f

      skip_plain :
          (k : String)
          → (k == "FDPASS_PLAIN_PID") ≡ false
          → (k == "FDPASS_PLAIN_GEN") ≡ false
          → plains k ≡ processors k
      skip_plain k e f =
          skipped "FDPASS_PLAIN_PID" "FDPASS_PLAIN_GEN" k s.plain s.plain_gen processors e f

      skip_tls :
          (k : String)
          → (k == "FDPASS_TLS_PID") ≡ false
          → (k == "FDPASS_TLS_GEN") ≡ false
          → tlses k ≡ plains k
      skip_tls k e f = skipped "FDPASS_TLS_PID" "FDPASS_TLS_GEN" k s.tls s.tls_gen plains e f

      skip_scanner :
          (k : String)
          → (k == "FDPASS_SCANNER_PID") ≡ false
          → (k == "FDPASS_SCANNER_GEN") ≡ false
          → with_pids num s listeners k ≡ tlses k
      skip_scanner k e f =
          skipped "FDPASS_SCANNER_PID" "FDPASS_SCANNER_GEN" k s.scanner s.scanner_gen tlses e f

      abbrev given : Env
      given = with_pids num s listeners

      processor_pid : env_pid num "FDPASS_PROCESSOR_PID" given ≡ s.processor
      processor_pid =
          ap (and_parsed num.parse_u32)
            (skip_scanner _ refl refl ∙ skip_tls _ refl refl ∙ skip_plain _ refl refl)
          ∙ read_pid s.processor s.processor_gen "FDPASS_PROCESSOR_PID" "FDPASS_PROCESSOR_GEN"
              listeners w.pids.0 refl refl refl

      plain_pid : env_pid num "FDPASS_PLAIN_PID" given ≡ s.plain
      plain_pid =
          ap (and_parsed num.parse_u32) (skip_scanner _ refl refl ∙ skip_tls _ refl refl)
          ∙ read_pid s.plain s.plain_gen "FDPASS_PLAIN_PID" "FDPASS_PLAIN_GEN" processors w.pids.1
              refl refl (skip_processor _ refl refl)

      tls_pid : env_pid num "FDPASS_TLS_PID" given ≡ s.tls
      tls_pid =
          ap (and_parsed num.parse_u32) (skip_scanner _ refl refl)
          ∙ read_pid s.tls s.tls_gen "FDPASS_TLS_PID" "FDPASS_TLS_GEN" plains w.pids.2 refl refl
              (skip_plain _ refl refl ∙ skip_processor _ refl refl)

      scanner_pid : env_pid num "FDPASS_SCANNER_PID" given ≡ s.scanner
      scanner_pid =
          read_pid s.scanner s.scanner_gen "FDPASS_SCANNER_PID" "FDPASS_SCANNER_GEN" tlses w.pids.3
            refl refl (skip_tls _ refl refl ∙ skip_plain _ refl refl ∙ skip_processor _ refl refl)

      processor_gen :
          env_generation num "FDPASS_PROCESSOR_GEN" given ≡ running s.processor s.processor_gen
      processor_gen =
          ap (λ o. or_zero (and_parsed num.parse_u64 o))
            (skip_scanner _ refl refl ∙ skip_tls _ refl refl ∙ skip_plain _ refl refl)
          ∙ read_gen s.processor s.processor_gen "FDPASS_PROCESSOR_PID" "FDPASS_PROCESSOR_GEN"
              listeners w.gens.0 refl refl

      plain_gen : env_generation num "FDPASS_PLAIN_GEN" given ≡ running s.plain s.plain_gen
      plain_gen =
          ap (λ o. or_zero (and_parsed num.parse_u64 o))
            (skip_scanner _ refl refl ∙ skip_tls _ refl refl)
          ∙ read_gen s.plain s.plain_gen "FDPASS_PLAIN_PID" "FDPASS_PLAIN_GEN" processors w.gens.1
              refl (skip_processor _ refl refl)

      tls_gen : env_generation num "FDPASS_TLS_GEN" given ≡ running s.tls s.tls_gen
      tls_gen =
          ap (λ o. or_zero (and_parsed num.parse_u64 o)) (skip_scanner _ refl refl)
          ∙ read_gen s.tls s.tls_gen "FDPASS_TLS_PID" "FDPASS_TLS_GEN" plains w.gens.2 refl
              (skip_plain _ refl refl ∙ skip_processor _ refl refl)

      scanner_gen : env_generation num "FDPASS_SCANNER_GEN" given ≡ running s.scanner s.scanner_gen
      scanner_gen =
          read_gen s.scanner s.scanner_gen "FDPASS_SCANNER_PID" "FDPASS_SCANNER_GEN" tlses w.gens.3
            refl (skip_tls _ refl refl ∙ skip_plain _ refl refl ∙ skip_processor _ refl refl)

      -- A successor adopts exactly the workers that its predecessor ran: of each role the pid, and the
      -- generation of a worker that runs, and zero for a role without one. What the supervisor's own
      -- environment says of them, from the supervisor before it, does not count. The numbers are to
      -- fit their types, and to be read back as they are printed.
      pub adopted_of-successor_env :
          adopted_of num (successor_env num fds s generation ready_fd env) ≡ record s {
            processor_gen = running s.processor s.processor_gen;
            plain_gen = running s.plain s.plain_gen;
            tls_gen = running s.tls s.tls_gen;
            scanner_gen = running s.scanner s.scanner_gen;
          }
      unfolding adopted_of successor_env
      adopted_of-successor_env = λ i. record {
        processor = processor_pid i;
        plain = plain_pid i;
        tls = tls_pid i;
        scanner = scanner_pid i;
        processor_gen = processor_gen i;
        plain_gen = plain_gen i;
        tls_gen = tls_gen i;
        scanner_gen = scanner_gen i;
      }
