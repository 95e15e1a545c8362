-- ===== src/Modules/Rollback.antt =====
-- Loading is all or nothing, and unloading undoes it. The ladder is compared with a recursion on the
-- list of modules, and what is loaded is read off the log as a stack.
use ps4rpi.Prelude.{
  ℕ, ◌≡◌, ◌⊎◌, refl, true, false, Bool-cases, Option, none, some, List, [], ◌∷◌, ◌++◌, arith, ◌==◌,
  if◌then◌else◌, inl, inr, ◌>>=◌,
}
use ps4rpi.Console.{Console, Call, Log, SystemModule}
use ps4rpi.Modules.{Loading, unload, load_modules, unload_modules}

-- the modules in the order of loading
abbrev pub all_modules : List SystemModule
all_modules =
    SystemModule.syscore ∷ SystemModule.system_service ∷ SystemModule.user_service
    ∷ SystemModule.netctl ∷ SystemModule.net ∷ SystemModule.http ∷ SystemModule.ssl
    ∷ SystemModule.app_inst_util ∷ SystemModule.bgft ∷ SystemModule.np_common ∷ []

abbrev pub rev_onto : List SystemModule → List SystemModule → List SystemModule
rev_onto [] done = done
rev_onto (m ∷ ms) done = rev_onto ms (m ∷ done)

-- unload a stack of modules from its top
abbrev pub unload_all : List SystemModule → Log → Log
unload_all [] log = log
unload_all (m ∷ done) log = unload_all done (unload m log)

abbrev pub index : SystemModule → ℕ
index SystemModule.syscore = 0
index SystemModule.system_service = 1
index SystemModule.user_service = 2
index SystemModule.netctl = 3
index SystemModule.net = 4
index SystemModule.http = 5
index SystemModule.ssl = 6
index SystemModule.app_inst_util = 7
index SystemModule.bgft = 8
index SystemModule.np_common = 9

-- Only the module loaded last can be unloaded.
abbrev pop : SystemModule → List SystemModule → Option (List SystemModule)
pop m [] = none
pop m (x ∷ rest) = if index m == index x then some rest else none

module _ (k : Console) where
  -- the modules loaded, the last one first; none where one was unloaded out of turn
  abbrev pub stack : Log → Option (List SystemModule)
  stack [] = some []
  stack (Call.load_module m ∷ log) = do
    rest ← stack log
    some (if k.ret log (Call.load_module m) == 0 then m ∷ rest else rest)
  stack (Call.unload_module m ∷ log) = do rest ← stack log; pop m rest
  stack (_ ∷ log) = stack log

  -- load the modules still to do, and on a failure unload those done
  load_all : List SystemModule → List SystemModule → Log → Loading
  load_all done [] log = record { status = true; modules_loaded = true; log = log }
  load_all done (m ∷ ms) log =
      if k.ret log (Call.load_module m) == 0
      then load_all (m ∷ done) ms (Call.load_module m ∷ log)
      else record {
        status = false;
        modules_loaded = false;
        log = unload_all done (Call.load_module m ∷ log);
      }

  load_modules-load_all : (log : Log) → load_modules k false log ≡ load_all [] all_modules log
  unfolding load_modules load_all
  load_modules-load_all log = refl

  stack-unload_all :
      (done base : List SystemModule) (log : Log)
      → stack log ≡ some (done ++ base)
      → stack (unload_all done log) ≡ some base
  stack-unload_all [] base log h = h
  stack-unload_all (m ∷ done) base log h =
      stack-unload_all done base (unload m log) (rw h (ground arith))

  -- All of `loaded` lies on the stack and the flag is set, or nothing does and it is not.
  abbrev pub LoadedOrNot : (loaded base : List SystemModule) → Loading → Type 0
  LoadedOrNot loaded base r =
      ((r.status ≡ true) × (r.modules_loaded ≡ true) × (stack r.log ≡ some (loaded ++ base)))
      ⊎ ((r.status ≡ false) × (r.modules_loaded ≡ false) × (stack r.log ≡ some base))

  load_all-stack :
      (done ms base : List SystemModule) (log : Log)
      → stack log ≡ some (done ++ base)
      → LoadedOrNot (rev_onto ms done) base (load_all done ms log)
  unfolding load_all
  load_all-stack done [] base log h = inl (refl, refl, h)
  load_all-stack done (m ∷ ms) base log h =
      elim (Bool-cases (k.ret log (Call.load_module m) == 0)) [
        | inl loaded ↦
            rw loaded
              (load_all-stack (m ∷ done) ms base (Call.load_module m ∷ log) (rw (h, loaded) refl))
        | inr failed ↦ rw failed (
            inr (
              refl,
              refl,
              stack-unload_all done base (Call.load_module m ∷ log) (rw (h, failed) refl),
            ))
      ]

  -- Where modules are not loaded yet, loading them either loads all ten in order, or leaves loaded
  -- what was loaded before, each module being unloaded in its turn; the flag kept is the status
  -- returned.
  pub load_modules_all_or_nothing :
      (base : List SystemModule) (log : Log)
      → stack log ≡ some base
      → LoadedOrNot (rev_onto all_modules []) base (load_modules k false log)
  load_modules_all_or_nothing base log h =
      rw (load_modules-load_all log) (load_all-stack [] all_modules base log h)

  load_all-answers :
      (done ms : List SystemModule) (log : Log)
      → (load_all done ms log).modules_loaded ≡ (load_all done ms log).status
  unfolding load_all
  load_all-answers done [] log = refl
  load_all-answers done (m ∷ ms) log = elim (Bool-cases (k.ret log (Call.load_module m) == 0)) [
    | inl loaded ↦ rw loaded (load_all-answers (m ∷ done) ms (Call.load_module m ∷ log))
    | inr bad ↦ rw bad refl
  ]

  -- The answer of loading is the flag after it.
  pub load_modules-answers :
      (log : Log) → (load_modules k false log).modules_loaded ≡ (load_modules k false log).status
  load_modules-answers log = rw (load_modules-load_all log) (load_all-answers [] all_modules log)

  load_all-loads :
      ((log : Log) (m : SystemModule) → k.ret log (Call.load_module m) ≡ 0)
      → (done ms : List SystemModule) (log : Log) → (load_all done ms log).status ≡ true
  unfolding load_all
  load_all-loads fine done [] log = refl
  load_all-loads fine done (m ∷ ms) log =
      rw (fine log m) (load_all-loads fine (m ∷ done) ms (Call.load_module m ∷ log))

  -- Loading succeeds where every call does.
  pub load_modules-loads :
      ((log : Log) (m : SystemModule) → k.ret log (Call.load_module m) ≡ 0)
      → (log : Log) → (load_modules k false log).status ≡ true
  load_modules-loads fine log =
      rw (load_modules-load_all log) (load_all-loads fine [] all_modules log)

  loaded_stack :
      (base : List SystemModule) (log : Log)
      → (load_modules k false log).status ≡ true
      → LoadedOrNot (rev_onto all_modules []) base (load_modules k false log)
      → stack (load_modules k false log).log ≡ some (rev_onto all_modules [] ++ base)
  loaded_stack base log ok (inl (_, _, h)) = h
  loaded_stack base log ok (inr (failed, _, _)) = cc

  -- After a successful loading, unloading leaves loaded what was loaded before it, each module being
  -- unloaded in its turn, and clears the flag; to unload once more makes no call.
  pub unload-load_modules :
      (base : List SystemModule) (log : Log)
      → stack log ≡ some base
      → (load_modules k false log).status ≡ true
      → let r = unload_modules k true (load_modules k false log).log in
        (stack r.log ≡ some base)
        × (r.modules_loaded ≡ false)
        × ((unload_modules k r.modules_loaded r.log).log ≡ r.log)
  unfolding unload_modules
  unload-load_modules base log h ok =
      let loaded = loaded_stack base log ok (load_modules_all_or_nothing base log h) in
      (
        stack-unload_all (rev_onto all_modules []) base (load_modules k false log).log loaded,
        refl,
        refl,
      )
