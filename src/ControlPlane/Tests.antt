-- ===== src/ControlPlane/Tests.antt =====
-- Values of a control plane on which the theorem is applied.
use gardener_extension_provi.Base.{false, [], ◌∷◌, none, some, ◌≡◌, refl, same}
use gardener_extension_provi.Base.Int.{pos}
use gardener_extension_provi.Fallible.{ok}
use gardener_extension_provi.Text.{split, atoi}
use gardener_extension_provi.Profile.Find.{find_region, zone_datacenters, collect_datacenters}
use gardener_extension_provi.Profile.Tests.{sample_config}
use gardener_extension_provi.Credentials.{ccm_account}
use gardener_extension_provi.Credentials.Tests.{secret_credentials}
use gardener_extension_provi.LoadBalancer.{
  later_default, overwritten, lb_class, check_ip_pool, overwrite_from, overwrite_default,
  overwrite_load_balancer_classes,
}
use gardener_extension_provi.Actuator.Tests.{started_status}
use gardener_extension_provi.ControlPlane.{
  ConfigValues, Sources, split_server_name_and_port, load_balancer_values, get_config_chart_values,
}
use gardener_extension_provi.ControlPlane.Laws.{
  HasAuthorizedPools, get_config_chart_values-HasAuthorizedPools,
}

abbrev sources : Sources
sources = record {
  config = ok (some sample_config);
  infra_config = ok record { networks = none; overwrite_nsxt_infra_version = none };
  region = "eu";
  infra_status = ok (some started_status);
  cp_config = record {
    cloud_controller_manager = none;
    load_balancer_classes =
        record {
          name = "default";
          ip_pool_name = some "own";
          tcp_app_profile_name = none;
          udp_app_profile_name = none;
        }
        ∷ [];
    load_balancer_size = some "LARGE";
  };
  credentials = secret_credentials;
  garden_id = "g1";
  check = λ pool. none;
  sorted = λ set. set;
}

abbrev values : ConfigValues
values = record {
  server_name = "vsphere";
  server_port = pos 443;
  insecure_flag = false;
  datacenters = "dc" ∷ [];
  username = "ccm";
  password = "b";
  load_balancer = record {
    ip_pool_name = "own";
    size = "LARGE";
    classes =
        record {
          name = "default";
          ip_pool_name = some "own";
          tcp_app_profile_name = none;
          udp_app_profile_name = none;
        }
        ∷ [];
    owner = "g1";
    tcp_app_profile_name = none;
    udp_app_profile_name = none;
    tier1_gateway_path = none;
    lb_service_id = none;
  };
  nsxt = record {
    user = "nsxt";
    password = "c";
    host = "nsxt";
    insecure_flag = false;
    remote_auth = false;
  };
  ca_file = none;
  thumbprint = none;
  label_region = none;
  label_zone = none;
}

values_made : get_config_chart_values sources ≡ ok values
unfolding get_config_chart_values find_region split_server_name_and_port split load_balancer_values
    overwrite_load_balancer_classes overwrite_default overwrite_from later_default lb_class
    overwritten check_ip_pool ccm_account zone_datacenters collect_datacenters same
values_made = refl

server_with_port : split_server_name_and_port "host:8443" ≡ ok ("host", pos 8443)
unfolding split_server_name_and_port split atoi
server_with_port = refl

get_config_chart_values-HasAuthorizedPools_example :
    HasAuthorizedPools sources sample_config values.load_balancer
get_config_chart_values-HasAuthorizedPools_example =
    get_config_chart_values-HasAuthorizedPools sources sample_config values refl values_made
