-- ===== src/Providers/Defaults.antt =====
-- The default provider of crates/central/src/provider.rs.
use oidc_agent_compat.Prelude.{
  String, ◌==◌, ◌≡◌, refl, Bool, true, false, ◌&&◌, ◌||◌, not, Option, none, some, List, [], ◌∷◌,
  any, find, select, update, if◌then◌else◌, All, All-map, arith, eq_iff, eq_refl, find_sound,
}
use oidc_agent_compat.Error.{Error, config, Result, ok, err}
use oidc_agent_compat.Entity.{Provider}
use oidc_agent_compat.World.{
  World, Exec, raise, ◌>>=◌, ◌>>◌, query, execute, write, now_utc, continue,
}
use oidc_agent_compat.World.Cases.{with_faults}
use oidc_agent_compat.Providers.{
  is_provider, set_provider, get_provider, clear_defaults, clear_other_defaults, set_default,
  set_default_provider,
}

module _ (id : String) where
  -- a default, if it is not the given provider, has its id among the items
  abbrev pub is_covered : List Provider → Provider → Bool
  is_covered items p =
      not p.is_default || p.id == id || any (λ (i : Provider). is_provider i.id p) items

  abbrev pub Covers : List Provider → List Provider → Type 0
  Covers items rows = All (λ (p : Provider). is_covered items p ≡ true) rows

  abbrev pub is_stray : Provider → Bool
  is_stray p = p.is_default && not (p.id == id)

  more :
      (i : Provider) (items : List Provider) (p : Provider)
      → is_covered items p ≡ true
      → is_covered (i ∷ items) p ≡ true
  more i items p h = ground arith

  with_stray :
      (q : Provider) (rows items : List Provider) (b : Bool)
      → is_stray q ≡ b
      → Covers items rows
      → Covers (if b then q ∷ items else items) (q ∷ rows)
  with_stray q rows items true s h = (ground (arith, eq_refl q.id), All-map (more q items) rows h)
  with_stray q rows items false s h = (ground arith, h)

  strays-Covers : (rows : List Provider) → Covers (select is_stray rows) rows
  strays-Covers [] = tt
  strays-Covers (q ∷ rows) =
      with_stray q rows (select is_stray rows) (is_stray q) refl (strays-Covers rows)

  -- clearing one item leaves the others
  cleared_covered :
      (i c p : Provider) (items : List Provider) (b : Bool)
      → is_provider i.id p ≡ b
      → c.is_default ≡ false
      → is_covered (i ∷ items) p ≡ true
      → is_covered items (if b then c else p) ≡ true
  cleared_covered i c p items true e d h = ground arith
  cleared_covered i c p items false e d h = ground arith

  clear-Covers :
      (i c : Provider) (items rows : List Provider)
      → c.is_default ≡ false
      → Covers (i ∷ items) rows
      → Covers items (update (is_provider i.id) (λ _. c) rows)
  clear-Covers i c items [] d h = tt
  clear-Covers i c items (p ∷ rows) d (h, rest) = (
    cleared_covered i c p items (is_provider i.id p) refl d h,
    clear-Covers i c items rows d rest,
  )

  -- an update that keeps the id keeps a provider with the id
  has_updated :
      (i c p : Provider) (b : Bool)
      → is_provider i.id p ≡ b
      → c.id ≡ i.id
      → is_provider id p ≡ true
      → is_provider id (if b then c else p) ≡ true
  has_updated i c p true e d h = ground (arith, eq_iff p.id i.id, eq_iff p.id id, eq_iff c.id id)
  has_updated i c p false e d h = h

  any-update :
      (i c : Provider) (rows : List Provider)
      → c.id ≡ i.id
      → any (is_provider id) rows ≡ true
      → any (is_provider id) (update (is_provider i.id) (λ _. c) rows) ≡ true
  any-update i c [] d h = h
  any-update i c (p ∷ rows) d h =
      ground (arith, has_updated i c p (is_provider i.id p) refl d, any-update i c rows d)

  abbrev Kept : List Provider → World → Type 0
  Kept items w = Covers items w.providers × (any (is_provider id) w.providers ≡ true)

  abbrev cleared : Provider → World → World
  cleared i w = set_provider i.id (λ p. record i { is_default = false; updated_at = w.now }) w

  cleared-Kept :
      (i : Provider) (items : List Provider) (w : World)
      → Kept (i ∷ items) w
      → Kept items (cleared i w)
  cleared-Kept i items w (h, k) = (
    clear-Covers i (record i { is_default = false; updated_at = w.now }) items w.providers refl h,
    any-update i (record i { is_default = false; updated_at = w.now }) w.providers refl k,
  )

  abbrev Clears : Result Error (Unit {0}) × World → Type 0
  Clears (r, v) = r ≡ ok tt → Kept [] v

  clear_defaults_lem :
      (items : List Provider) (w : World) (faults : List (Option String))
      → Kept items w
      → Clears (clear_defaults items (with_faults w faults))
  unfolding clear_defaults now_utc write execute ◌>>=◌
  clear_defaults_lem [] w faults h = λ e. h
  clear_defaults_lem (i ∷ items) w [] h =
      clear_defaults_lem items (cleared i w) [] (cleared-Kept i items w h)
  clear_defaults_lem (i ∷ items) w (none ∷ fs) h =
      clear_defaults_lem items (cleared i w) fs (cleared-Kept i items w h)
  clear_defaults_lem (i ∷ items) w (some m ∷ fs) h = λ e. ground (arith, e)

  clear_other_defaults_lem :
      (w : World) (faults : List (Option String))
      → any (is_provider id) w.providers ≡ true
      → Clears (clear_other_defaults id (with_faults w faults))
  unfolding clear_other_defaults query execute ◌>>=◌
  clear_other_defaults_lem w [] h =
      clear_defaults_lem (select is_stray w.providers) w [] (strays-Covers w.providers, h)
  clear_other_defaults_lem w (none ∷ fs) h =
      clear_defaults_lem (select is_stray w.providers) w fs (strays-Covers w.providers, h)
  clear_other_defaults_lem w (some m ∷ fs) h = λ e. ground (arith, e)

  -- the provider is a default, and no other is
  abbrev pub is_chosen : Provider → Bool
  is_chosen p = p.is_default && p.id == id

  abbrev pub Sole : World → Type 0
  Sole w =
      All (λ (p : Provider). (not p.is_default || p.id == id) ≡ true) w.providers
      × (any is_chosen w.providers ≡ true)

  chosen_or_covered :
      (c p : Provider) (b : Bool)
      → is_provider id p ≡ b
      → is_chosen c ≡ true
      → is_covered [] p ≡ true
      → (not (if b then c else p).is_default || (if b then c else p).id == id) ≡ true
  chosen_or_covered c p true e d h = ground arith
  chosen_or_covered c p false e d h = ground arith

  chosen_updated :
      (c p : Provider) (b : Bool)
      → is_provider id p ≡ b
      → is_chosen c ≡ true
      → is_provider id p ≡ true
      → is_chosen (if b then c else p) ≡ true
  chosen_updated c p true e d h = d
  chosen_updated c p false e d h = ground arith

  chosen-Sole :
      (c : Provider) (rows : List Provider)
      → is_chosen c ≡ true
      → Covers [] rows
      → All
          (λ (p : Provider). (not p.is_default || p.id == id) ≡ true)
          (update (is_provider id) (λ _. c) rows)
  chosen-Sole c [] d h = tt
  chosen-Sole c (p ∷ rows) d (h, rest) =
      (chosen_or_covered c p (is_provider id p) refl d h, chosen-Sole c rows d rest)

  any-chosen :
      (c : Provider) (rows : List Provider)
      → is_chosen c ≡ true
      → any (is_provider id) rows ≡ true
      → any is_chosen (update (is_provider id) (λ _. c) rows) ≡ true
  any-chosen c [] d h = h
  any-chosen c (p ∷ rows) d h =
      ground (arith, chosen_updated c p (is_provider id p) refl d, any-chosen c rows d)

  abbrev mark : Provider → Exec Error (Unit {0})
  mark provider = do
    now ← now_utc
    write "set default provider"
        (set_provider provider.id (λ p. record provider { is_default = true; updated_at = now }))

  abbrev Settles : Result Error (Unit {0}) × World → Type 0
  Settles (r, v) = r ≡ ok tt → Sole v

  marked-Sole :
      (c : Provider) (key : String) (w : World)
      → key ≡ id
      → is_chosen c ≡ true
      → Kept [] w
      → Sole (set_provider key (λ _. c) w)
  marked-Sole c key w q e (h, k) =
      rw q (chosen-Sole c w.providers e h, any-chosen c w.providers e k)

  mark_lem :
      (provider : Provider) (w : World) (faults : List (Option String))
      → is_provider id provider ≡ true
      → Kept [] w
      → Settles (mark provider (with_faults w faults))
  unfolding now_utc write execute ◌>>=◌
  mark_lem provider w [] e h = λ _.
      marked-Sole (record provider { is_default = true; updated_at = w.now }) provider.id w
        ((eq_iff provider.id id).0 e) e h
  mark_lem provider w (none ∷ fs) e h = λ _.
      marked-Sole (record provider { is_default = true; updated_at = w.now }) provider.id w
        ((eq_iff provider.id id).0 e) e h
  mark_lem provider w (some m ∷ fs) e h = λ k. ground (arith, k)

  after_clear :
      (provider : Provider) (r : Result Error (Unit {0})) (v : World)
      → is_provider id provider ≡ true
      → Clears (r, v)
      → Settles (continue r (λ _. mark provider) v)
  after_clear provider (ok _) v e h = mark_lem provider v v.faults e (h refl)
  after_clear provider (err m) v e h = λ k. ground (arith, k)

  found :
      (p : Provider) (rows : List Provider)
      → find (is_provider id) rows ≡ some p
      → any (is_provider id) rows ≡ true
  found p [] h = ground arith
  found p (q ∷ rows) h = ground (arith, found p rows)

  -- a provider that is enabled, or not
  gate :
      (p : Provider) (w : World) (faults : List (Option String))
      → is_provider id p ≡ true
      → any (is_provider id) w.providers ≡ true
      → (b : Bool)
      → Settles (
          (if b
              then (clear_other_defaults id >> mark p)
              else raise (config "a disabled provider cannot be default"))
            (with_faults w faults))
  unfolding ◌>>=◌
  gate p w faults e h true =
      after_clear p (clear_other_defaults id (with_faults w faults)).0
        (clear_other_defaults id (with_faults w faults)).1 e (clear_other_defaults_lem w faults h)
  gate p w faults e h false = λ k. ground (arith, k)

  set_default_lem :
      (row : Option Provider) (w : World) (faults : List (Option String))
      → find (is_provider id) w.providers ≡ row
      → Settles (set_default id row (with_faults w faults))
  unfolding set_default ◌>>=◌
  set_default_lem none w faults h = λ k. ground (arith, k)
  set_default_lem (some p) w faults h =
      gate p w faults (find_sound (is_provider id) w.providers h) (found p w.providers h) p.enabled

  settles :
      (w : World) (faults : List (Option String))
      → Settles (set_default_provider id (with_faults w faults))
  unfolding set_default_provider get_provider query execute ◌>>=◌
  settles w [] = set_default_lem (find (is_provider id) w.providers) w [] refl
  settles w (none ∷ fs) = set_default_lem (find (is_provider id) w.providers) w fs refl
  settles w (some m ∷ fs) = λ k. ground (arith, k)

  -- After setting the default provider has succeeded, a provider with that id is a default, and no
  -- provider with another id is.
  pub set_default_provider-Sole :
      (w : World) → (set_default_provider id w).0 ≡ ok tt → Sole (set_default_provider id w).1
  set_default_provider-Sole w h = settles w w.faults h
