-- ===== src/Ingest/Sources/Tests.antt =====
-- The registry of the configuration that the tests of the configuration accept.
use cyberwatch_rs.Prelude.{ok, ◌≡◌}
use cyberwatch_rs.Source.Registry.{SourceRegistry}
use cyberwatch_rs.Config.Tests.{
  test_feeds, public_lookup, public_address_of, no_files, public_config, config_accepted,
}
use cyberwatch_rs.Ingest.Sources.{adapters_of, build_registry, Adapter}
use cyberwatch_rs.Ingest.Sources.Laws.{enabled_adapters}
use cyberwatch_rs.Ingest.Sources.Accepted.{build_registry_total}

build_registry_total_example :
    (registry : SourceRegistry Adapter) × (build_registry public_config ≡ ok registry)
    × (registry.adapters ≡ enabled_adapters public_config)
build_registry_total_example =
    build_registry_total public_address_of no_files public_lookup "" public_config config_accepted
