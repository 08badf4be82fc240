-- ===== src/Assistant/Tests/Worker.antt =====
-- The worker, the providers and the daily refresh on the store of the tests.
use gnester_lite.Common.{◌≡◌, refl, arith, true, none, some, [], ◌∷◌, map, select_where, ok}
use gnester_lite.Assistant.Store.{deepseek}
use gnester_lite.Assistant.Tests.{shop, answer, turn}
use gnester_lite.Assistant.Generation.{is_usable}
use gnester_lite.Assistant.Configuration.Catalog.{CatalogModel}
use gnester_lite.Assistant.Lifecycle.Runs.{stops, waits, refreshes, run}
use gnester_lite.Assistant.Providers.{
  Network, providers_of, answered, ListedModel, text_value, missing, ProviderError, read_catalog,
  listed_models,
}
use gnester_lite.Assistant.Providers.Errors.{Verdicts, credential_failure-Verdicts}
use gnester_lite.Assistant.Sync.{refresh_daily_catalogs, refresh_daily_catalogs-run}
use gnester_lite.Assistant.Worker.{World, Answers, text_delta, other, generate}
use gnester_lite.Assistant.Worker.Quiet.Final.{Finished, generate-Finished}

abbrev respond : Answers
respond = record {
  decrypts = λ k. true;
  parts = λ n k. text_delta (66 ∷ []) ∷ other ∷ text_delta (67 ∷ []) ∷ [];
}

abbrev world : World
world = record { store = shop; others = []; last_checkpoint = 0; attempted = [] }

generate-Finished_example : Finished 4 (generate respond 1 4 world)
generate-Finished_example =
    generate-Finished respond 1 4 answer turn world (λ n k. (tt, (tt, (tt, tt))))
      (record {
        quiet = refl;
        known = omega arith;
        waiting = record { row = refl; single = omega arith; waits = refl };
        turn = refl;
        fresh = refl;
        fuelled = omega arith;
      })

-- The owner stops the answer while the worker waits.
abbrev disturbed : World
disturbed = record world { others = [] ∷ (waits 300 true true ∷ []) ∷ (stops 7 4 ∷ []) ∷ [] }

abbrev network : Network
network = record {
  catalog_reply = λ p secret. answered (some []);
  generates_text = λ p model secret. ok tt;
  encrypt = λ secret user_id p key_id. secret;
  decrypt = λ secret user_id p key_id. ok secret;
}

refresh_daily_catalogs-run_example : refresh_daily_catalogs (providers_of network) shop ≡ (
  ok tt,
  run
      (map
        (λ k. refreshes (providers_of network) k.user_id k.id)
        (select_where is_usable shop.keys))
      shop,
)
refresh_daily_catalogs-run_example = refresh_daily_catalogs-run (providers_of network) shop

abbrev payment_required : ProviderError
payment_required = record { status_code = some 402; body = none }

credential_failure-Verdicts_example : Verdicts payment_required deepseek
credential_failure-Verdicts_example = credential_failure-Verdicts payment_required deepseek

abbrev entry : ListedModel
entry = record {
  id = text_value "deepseek-chat";
  input_modalities = none;
  output_modalities = none;
}

abbrev chat_model : CatalogModel
chat_model = record { id = "deepseek-chat"; input_modalities = none; output_modalities = none }

reads_catalog :
    read_catalog (answered (some (some entry ∷ some (record entry { id = missing }) ∷ [])))
    ≡ ok (chat_model ∷ [])
unfolding read_catalog listed_models
reads_catalog = refl
