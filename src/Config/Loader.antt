-- ===== src/Config/Loader.antt =====
-- src/runtime/config/loader.rs, `ConfigLoader`: a snapshot is the defaults, the base file and the
-- override file, merged in this order, then the environment. Reading, converting and validating a
-- configuration are calls of other code, and are the fields of `Sources`.
use Prim.Native.String.{String}
use rustservicelib.Base.{
  List, [], ◌∷◌, subst, Option, none, some, Eq, ◌≡◌, refl, sym, ◌∙◌, ap, ◌⊎◌, inl, inr,
}
use rustservicelib.Config.Yaml.{Yaml, merge_yaml}

-- `InvalidConfiguration` with its text, or the result.
pub data Loaded {ℓ} (A : Type ℓ) : Type ℓ where
  loaded : A → Loaded A
  invalid : String → Loaded A

infixl 5 ◌>>=◌
abbrev pub ◌>>=◌ {ℓ κ} : {S : Type ℓ} {T : Type κ} → Loaded S → (S → Loaded T) → Loaded T
invalid text >>= f = invalid text
loaded s >>= f = f s

-- What the calls of one reload answer; a file is `none` when there is no path to it.
pub record Sources {ℓ} (K L C R : Type ℓ) : Type ℓ where
  pub defaults : Loaded (Yaml K L)
  pub base : Option (Loaded (Yaml K L))
  pub override_file : Option (Loaded (Yaml K L))
  pub from_value : Yaml K L → Loaded C
  pub apply_environment : C → Loaded C
  pub validate : C → Loaded (Unit {0})
  pub runtime : C → Loaded R
  pub handler : Option (C → R → Loaded (Unit {0}))

pub record ConfigLoader {ℓ} (C R : Type ℓ) : Type ℓ where
  pub current : C
  pub runtime_config : R

abbrev merge_file {ℓ} :
    {K : Type ℓ} {L : Type ℓ} ⦃e : Eq K⦄ → Yaml K L → Option (Loaded (Yaml K L)) → Loaded (Yaml K L)
merge_file value none = loaded value
merge_file value (some file) = file >>= λ over. loaded (merge_yaml value over)

abbrev pub handled {ℓ} :
    {C : Type ℓ} {R : Type ℓ} → C → R → Option (C → R → Loaded (Unit {0})) → Loaded (Unit {0})
handled c r none = loaded tt
handled c r (some handler) = handler c r

-- The two stores, each to its own atomic cell: a reader between them sees the new configuration with
-- the old runtime form.
abbrev pub store_current {ℓ} : {C : Type ℓ} {R : Type ℓ} → C → ConfigLoader C R → ConfigLoader C R
store_current c l = record l { current = c }

abbrev pub store_runtime {ℓ} : {C : Type ℓ} {R : Type ℓ} → R → ConfigLoader C R → ConfigLoader C R
store_runtime r l = record l { runtime_config = r }

-- The answer, and what the loader holds after each store, in order.
abbrev published {ℓ} :
    {C : Type ℓ} {R : Type ℓ}
    → ConfigLoader C R
    → Loaded (C × R)
    → Loaded C × List (ConfigLoader C R)
published l (invalid text) = (invalid text, [])
published l (loaded (c, r)) =
    (loaded c, store_current c l ∷ store_runtime r (store_current c l) ∷ [])

bind_loaded {κ μ} :
    {S : Type κ} {T : Type μ} (m : Loaded S) (f : S → Loaded T) (t : T)
    → (m >>= f) ≡ loaded t
    → (s : S) × (m ≡ loaded s) × (f s ≡ loaded t)
bind_loaded (invalid text) f t h = cc
bind_loaded (loaded s) f t h = (s, refl, h)

loaded_injective {ℓ} : {S : Type ℓ} {x y : S} → loaded x ≡ loaded y → x ≡ y
loaded_injective h = cc

module _ {ℓ} {K : Type ℓ} {L : Type ℓ} ⦃e : Eq K⦄ where
  -- A value with what a file adds to it: nothing without a path, else the file's value over it.
  abbrev pub Adds : Yaml K L → Option (Loaded (Yaml K L)) → Yaml K L → Type ℓ
  Adds v none w = w ≡ v
  Adds v (some file) w = (over : Yaml K L) × (file ≡ loaded over) × (w ≡ merge_yaml v over)

  merge_file-Adds :
      (v w : Yaml K L) (o : Option (Loaded (Yaml K L))) → merge_file v o ≡ loaded w → Adds v o w
  merge_file-Adds v w none h = sym (loaded_injective h)
  merge_file-Adds v w (some (invalid text)) h = absurd cc
  merge_file-Adds v w (some (loaded over)) h = (over, refl, sym (loaded_injective h))

  Adds-merge_file :
      (v w : Yaml K L) (o : Option (Loaded (Yaml K L))) → Adds v o w → merge_file v o ≡ loaded w
  Adds-merge_file v w none h = ap loaded (sym h)
  Adds-merge_file v w (some file) (over, read, merged) = rw (read, merged) refl

module _ {ℓ} {C : Type ℓ} {R : Type ℓ} where
  -- The handler, where there is one, accepts.
  abbrev pub Accepts : C → R → Option (C → R → Loaded (Unit {0})) → Type 0
  Accepts c r none = Unit
  Accepts c r (some handler) = handler c r ≡ loaded tt

  handled-Accepts :
      (c : C) (r : R) (o : Option (C → R → Loaded (Unit {0}))) (u : Unit {0})
      → handled c r o ≡ loaded u
      → Accepts c r o
  handled-Accepts c r none u h = tt
  handled-Accepts c r (some handler) u h = h

  Accepts-handled :
      (c : C) (r : R) (o : Option (C → R → Loaded (Unit {0})))
      → Accepts c r o
      → handled c r o ≡ loaded tt
  Accepts-handled c r none h = refl
  Accepts-handled c r (some handler) h = h

module _ {ℓ} {K : Type ℓ} {L : Type ℓ} {C : Type ℓ} {R : Type ℓ} ⦃e : Eq K⦄ where
  unfoldable pub load_snapshot : Sources K L C R → Loaded C
  load_snapshot s = s.defaults >>= λ value.
      (merge_file value s.base >>= λ value'.
      (merge_file value' s.override_file >>= λ value''.
      (s.from_value value'' >>= λ c.
      (s.apply_environment c >>= λ c'. (s.validate c' >>= λ u. loaded c')))))

  abbrev candidate : Sources K L C R → Loaded (C × R)
  candidate s =
      load_snapshot s >>= λ c. (s.runtime c >>= λ r. (handled c r s.handler >>= λ u. loaded (c, r)))

  -- `ConfigLoader::reload`.
  unfoldable pub reload : Sources K L C R → ConfigLoader C R → Loaded C × List (ConfigLoader C R)
  reload s l = published l (candidate s)

  -- All that has to succeed for a reload: the defaults with the base file and then the override file
  -- over them are converted, the environment is applied, the result is validated and has a runtime
  -- form, and the handler accepts both.
  pub record Succeeds (s : Sources K L C R) (c : C) (r : R) : Type ℓ where
    pub defaults : Yaml K L
    pub with_base : Yaml K L
    pub with_override : Yaml K L
    pub converted : C
    pub reads_defaults : s.defaults ≡ loaded defaults
    pub adds_base : Adds defaults s.base with_base
    pub adds_override : Adds with_base s.override_file with_override
    pub converts : s.from_value with_override ≡ loaded converted
    pub applies : s.apply_environment converted ≡ loaded c
    pub validates : s.validate c ≡ loaded tt
    pub has_runtime : s.runtime c ≡ loaded r
    pub accepts : Accepts c r s.handler

  candidate-Succeeds :
      (s : Sources K L C R) (c : C) (r : R) → candidate s ≡ loaded (c, r) → Succeeds s c r
  unfolding load_snapshot
  candidate-Succeeds s c r h =
      let (c1, snap, h1) = bind_loaded (load_snapshot s) _ (c, r) h in
      let (r1, run, h2) = bind_loaded (s.runtime c1) _ (c, r) h1 in
      let (u1, hand, h3) = bind_loaded (handled c1 r1 s.handler) _ (c, r) h2 in
      let (v, read, g1) = bind_loaded s.defaults _ c1 snap in
      let (v1, base, g2) = bind_loaded (merge_file v s.base) _ c1 g1 in
      let (v2, over, g3) = bind_loaded (merge_file v1 s.override_file) _ c1 g2 in
      let (b, converts, g4) = bind_loaded (s.from_value v2) _ c1 g3 in
      let (c2, env, g5) = bind_loaded (s.apply_environment b) _ c1 g4 in
      let (tt', valid, g6) = bind_loaded (s.validate c2) _ c1 g5 in
      let c_eq : c2 ≡ c1 = loaded_injective g6 in
      let both : ◌≡◌ {A = C × R} (c1, r1) (c, r) = loaded_injective h3 in
      subst (λ (z : C × R). Succeeds s z.0 z.1) both
        (record {
          defaults = v;
          with_base = v1;
          with_override = v2;
          converted = b;
          reads_defaults = read;
          adds_base = merge_file-Adds v v1 s.base base;
          adds_override = merge_file-Adds v1 v2 s.override_file over;
          converts = converts;
          applies = env ∙ ap loaded c_eq;
          validates = ap s.validate (sym c_eq) ∙ valid;
          has_runtime = run;
          accepts = handled-Accepts c1 r1 s.handler u1 hand;
        })

  Succeeds-candidate :
      (s : Sources K L C R) (c : C) (r : R) → Succeeds s c r → candidate s ≡ loaded (c, r)
  unfolding load_snapshot
  Succeeds-candidate s c r h =
      rw
        (
          h.reads_defaults,
          Adds-merge_file h.defaults h.with_base s.base h.adds_base,
          Adds-merge_file h.with_base h.with_override s.override_file h.adds_override,
          h.converts,
          h.applies,
          h.validates,
          h.has_runtime,
          Accepts-handled c r s.handler h.accepts,
        )
        refl

  -- A reload stores nothing, and answers an error, exactly when one of its steps fails: there is no
  -- configuration for which reading and merging the files, converting, the environment, validation,
  -- the runtime form and the handler all succeed. Otherwise it stores the configuration for which they
  -- succeed, and then its runtime form and nothing more, and answers that configuration.
  pub reload_transactional :
      (s : Sources K L C R) (l : ConfigLoader C R)
      → (((c : C) (r : R) → Succeeds s c r → ⊥)
          × ((text : String) × (reload s l ≡ (invalid text, []))))
        ⊎ ((c : C) × (r : R) × Succeeds s c r
            × (reload s l ≡ (
              loaded c,
              record l { current = c } ∷ record { current = c; runtime_config = r } ∷ [],
            )))
  unfolding reload
  reload_transactional s l = from_candidate (candidate s) refl
    where
      clash : (text : String) (x : C × R) → invalid text ≡ loaded x → ⊥
      clash text x h = cc

      from_candidate :
          (m : Loaded (C × R))
          → candidate s ≡ m
          → (((c : C) (r : R) → Succeeds s c r → ⊥)
              × ((text : String) × (published l m ≡ (invalid text, []))))
            ⊎ ((c : C) × (r : R) × Succeeds s c r
                × (published l m ≡ (
                  loaded c,
                  record l { current = c } ∷ record { current = c; runtime_config = r } ∷ [],
                )))
      from_candidate (invalid text) h =
          inl (λ c r ok. clash text (c, r) (sym h ∙ Succeeds-candidate s c r ok), (text, refl))
      from_candidate (loaded (c, r)) h = inr (c, r, candidate-Succeeds s c r h, refl)
