-- ===== src/Tests/Acquisitions.antt =====
-- Examples for the acquisition of sources in internal/egress.
use prolewatch.Prelude.{
  map, ℕ, ◌≤◌, ◌≡◌, refl, true, [], ◌∷◌, some, All, codes, bytes_eq, has_prefix, trim_space,
  insert_key, bytes_lt,
}
use prolewatch.Egress.Allowance.{
  permits, source_permits, same_request, under_repository, normalize_host,
}
use prolewatch.Egress.Acquire.{
  AcquireConfig, Transfer, Acquisition, FetchRecord, budget_bytes, reserve_ok, copy_limit,
  valid_source_filename, source_filename, receive, fetch_declared, dedupe_sorted, acquire_sources,
  acquire,
}
use prolewatch.Egress.Acquire.Bounded.{
  total_bytes, exact_urls, SpareAll, IsFetched, acquire-IsFetched,
}
use prolewatch.Tests.Hosts.{parse_url, allowance}

abbrev config : AcquireConfig
config = record { max_transfer_bytes = 100; disk_reserve_bytes = 50; idle_timeout_seconds = 60 }

abbrev transfer : ℕ → Transfer
transfer n = record {
  space_before = some (1000, 200);
  in_time = true;
  response = some (record {
    status = 200;
    hops = codes "mirror" ∷ [];
    sent = 99;
    opened = true;
    copied = true;
    closed = true;
  });
  space = some (1000, 200);
}

abbrev acquired : Acquisition
acquired = record {
  fetched =
      record {
        declared = codes "https://h/a";
        filename = codes "n";
        hosts = codes "h" ∷ codes "mirror" ∷ [];
        bytes = 99;
      }
      ∷ [];
  vcs_hosts = codes "h" ∷ [];
}

acquired_test : acquire parse_url config allowance true transfer ≡ some acquired
unfolding acquire acquire_sources fetch_declared source_filename valid_source_filename receive
    copy_limit reserve_ok budget_bytes dedupe_sorted insert_key permits source_permits same_request
    under_repository normalize_host bytes_eq bytes_lt has_prefix trim_space
acquired_test = refl

acquire-IsFetched_example :
    (allowance.frozen ≡ true)
    × (map FetchRecord.declared acquired.fetched ≡ exact_urls allowance.sources)
    × (total_bytes acquired.fetched ≤ budget_bytes config)
    × All (IsFetched parse_url config allowance) acquired.fetched
    × SpareAll parse_url config transfer 0 acquired.fetched
acquire-IsFetched_example =
    acquire-IsFetched parse_url config allowance true transfer acquired acquired_test
