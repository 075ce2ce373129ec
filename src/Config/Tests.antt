-- ===== src/Config/Tests.antt =====
-- An instance of the theorem: the configuration of the second node.
use node_messager.Base.{◌≡◌, refl, none, some, nat_eq}
use node_messager.Base.Retry.{ok}
use node_messager.Fixtures.{s2, cluster}
use node_messager.Config.{Config, Source, node_by_id, load_config, IsFiled, load_config-IsFiled}

abbrev source : Source
source = record { loading = none; nodes = ok cluster; master_id = 0; host_id = some 2 }

abbrev config : Config
config = record { nodes = cluster; host_node = some s2; master_id = 1 }

loads : load_config source ≡ ok config
unfolding load_config node_by_id
loads = refl

load_config-IsFiled_example : IsFiled source config
load_config-IsFiled_example = load_config-IsFiled source config loads
