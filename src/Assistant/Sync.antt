-- ===== src/Assistant/Sync.antt =====
-- assistant-model-sync.service.ts: the daily refresh of the catalogs.
use gnester_lite.Common.{
  ◌≡◌, refl, List, [], ◌∷◌, map, select_where, Program, Result, ok, err, ◌>>=◌, ◌>>◌, return, read,
  catch, handled,
}
use gnester_lite.Assistant.Store.{Key, Store}
use gnester_lite.Assistant.Generation.{is_usable}
use gnester_lite.Assistant.Configuration.Catalog.{Providers, refresh_models}
use gnester_lite.Assistant.Lifecycle.Runs.{Step, refreshes, exec, run}

module _ (env : Providers) where
  unfoldable pub refresh_key : Key → Program Store (Unit {0})
  refresh_key k = catch (refresh_models env k.user_id k.id) (λ _. return tt)

  unfoldable pub refresh_keys : List Key → Program Store (Unit {0})
  refresh_keys [] = return tt
  refresh_keys (k ∷ ks) = do refresh_key k; refresh_keys ks

  unfoldable pub refresh_daily_catalogs : Program Store (Unit {0})
  refresh_daily_catalogs = do keys ← read λ s. select_where is_usable s.keys; refresh_keys keys

  -- The refresh of one key, as a step.
  abbrev pub refreshing : Key → Step
  refreshing k = refreshes env k.user_id k.id

  handled_lem : (r : Result (Unit {0}) × Store) → handled r (λ _. return tt) ≡ (ok tt, r.1)
  unfolding return
  handled_lem (ok u, s) = refl
  handled_lem (err e, s) = refl

  refresh_key_lem : (k : Key) (s : Store) → refresh_key k s ≡ (ok tt, exec (refreshing k) s)
  unfolding refresh_key catch exec
  refresh_key_lem k s = handled_lem (refresh_models env k.user_id k.id s)

  refresh_keys_lem :
      (ks : List Key) (s : Store) → refresh_keys ks s ≡ (ok tt, run (map refreshing ks) s)
  unfolding refresh_keys run return ◌>>=◌
  refresh_keys_lem [] s = refl
  refresh_keys_lem (k ∷ ks) s =
      rw (refresh_key_lem k s) (refresh_keys_lem ks (exec (refreshing k) s))

  -- The daily refresh never throws, and does to the store what the refreshes of the keys that are
  -- enabled and not pending deletion do, one after the other, whether each succeeds or fails.
  pub refresh_daily_catalogs-run :
      (s : Store)
      → refresh_daily_catalogs s
        ≡ (ok tt, run (map (λ k. refreshes env k.user_id k.id) (select_where is_usable s.keys)) s)
  unfolding refresh_daily_catalogs ◌>>=◌ read
  refresh_daily_catalogs-run s = refresh_keys_lem (select_where is_usable s.keys) s
