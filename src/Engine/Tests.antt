-- ===== src/Engine/Tests.antt =====
-- A repository that counts its rows, and a provider that always throws.
use stellar_core.Prelude.{ℕ, ◌+◌, ◌≡◌, refl, true, none, some, List, [], ◌∷◌}
use stellar_core.Prelude.Int.{pos, at}
use stellar_core.Prelude.Result.{ok}
use stellar_core.Prelude.Text.{set_has, codes, text_eq}
use Prim.Native.String.{String}
use stellar_core.Engine.{
  NormalizedRateObservation, RateSnapshotRepository, RateCandidate, EngineDependencies,
}
use stellar_core.Engine.Counts.{IsReportOf, run_rate_engine_lem}
use stellar_core.Engine.Run.{
  engine_failure, key_of, candidate_key, after_quote, attempt, skip, push, begin_attempt, step,
  run_loop, initial_state, result_of, run_rate_engine,
}
use stellar_core.Engine.Snapshot.{
  present, bind_result, awaiting, found, holds, check_run, persist_body, catching,
  persist_rate_snapshot,
}

abbrev accepting : RateSnapshotRepository ℕ
accepting = record {
  find_anchor_by_slug = λ slug s. (s, ok (some (codes "a1")));
  find_corridor_by_slug = λ slug s. (s, ok (some (codes "c1")));
  has_association = λ a c s. (s, ok true);
  find_run_by_id = none;
  create_snapshot = λ input s. (
    s + 1,
    ok (record {
      id = codes "r1";
      rate = input.rate;
      source_amount = input.source_amount;
      destination_amount = input.destination_amount;
      fee = input.fee;
      captured_at = at input.captured_at;
      configuration_fingerprint = input.configuration_fingerprint;
      provenance_unavailable = none;
      capture_run_id = none;
    }),
  );
}

abbrev xlm_observation : NormalizedRateObservation
xlm_observation = record {
  quoted = record {
    anchor_slug = codes "anchor-1";
    corridor_slug = codes "xlm-brl";
    rate = codes "0.19";
    source_amount = codes "10";
    destination_amount = codes "50";
    fee = codes "0.5";
    captured_at = pos 1000;
  };
  configuration_fingerprint = none;
  capture_run_id = none;
}

stored_test : (persist_rate_snapshot accepting xlm_observation 4).0 ≡ 5
unfolding persist_rate_snapshot persist_body awaiting found holds check_run present catching
    bind_result
stored_test = refl

abbrev candidate : String → RateCandidate
candidate slug = record {
  anchor_slug = codes slug;
  corridor = record {
    slug = codes "xlm-brl";
    asset_code_from = codes "XLM";
    country_from = codes "US";
    asset_code_to = codes "BRL";
    country_to = codes "BR";
  };
  request = record {
    sell_asset = codes "stellar:XLM";
    buy_asset = codes "iso4217:BRL";
    sell_amount = some (codes "10");
    buy_amount = none;
    context = codes "sep6";
    expire_after = none;
    sell_delivery_method = none;
    buy_delivery_method = none;
    country_code = none;
  };
  capture_run_id = none;
}

abbrev failing : EngineDependencies ℕ
failing = record {
  quote_of = λ c s. (s, none);
  repository = accepting;
  now = λ s. (s, none);
  parse_date = λ t. none;
  configuration_fingerprint = none;
}

abbrev three_candidates : List RateCandidate
three_candidates = candidate "anchor-1" ∷ candidate "anchor-2" ∷ candidate "anchor-1" ∷ []

duplicate_test :
    let r = (run_rate_engine failing three_candidates 0).1 in
    (r.total_attempted ≡ 2) × (r.failed ≡ 2) × (r.skipped ≡ 1)
unfolding run_rate_engine result_of run_loop step initial_state set_has candidate_key key_of push
    attempt after_quote skip begin_attempt text_eq engine_failure
duplicate_test = (refl, refl, refl)

run_rate_engine_lem_example :
    IsReportOf three_candidates (run_rate_engine failing three_candidates 0).1
run_rate_engine_lem_example = run_rate_engine_lem failing three_candidates 0
