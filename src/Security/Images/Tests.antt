-- ===== src/Security/Images/Tests.antt =====
-- Images of concrete workloads.
use podscape.Common.{String, Bool, true, false, none, some, List, [], ◌∷◌, ◌≡◌, refl}
use podscape.Security.Kube.{Container, PodSpec, Resource}
use podscape.Security.Images.{
  extract_workload_images, entries_of, get_container_images, images_of, pod_spec_of, workload_of,
  get_unique_images, add_use, group_images, sort_images, insert_sorted,
}
use podscape.Security.Images.Usage.{users, listed, IsDistinct, listed-get_unique_images}

abbrev container : String → Container
container image = record {
  name = "c";
  image = some image;
  cpu_limit = none;
  memory_limit = none;
  liveness_probe = true;
  readiness_probe = true;
  env = [];
}

abbrev pod_spec : List Container → PodSpec
pod_spec cs = record { containers = some cs; init_containers = none }

abbrev web : Resource
web = record {
  kind = some "Deployment";
  name = "web";
  namespace = some "default";
  uid = "u1";
  spec = some (record {
    own = record { containers = none; init_containers = none };
    template = some (pod_spec (container "nginx:1" ∷ container "redis:7" ∷ []));
    job_template = none;
  });
}

abbrev pod : Resource
pod = record {
  kind = some "Pod";
  name = "one";
  namespace = none;
  uid = "u2";
  spec =
      some (record {
        own = pod_spec (container "nginx:1" ∷ []);
        template = none;
        job_template = none;
      });
}

abbrev as_given : String → String → Bool
as_given a b = false

two_users :
    listed "nginx:1" (get_unique_images as_given (web ∷ pod ∷ []))
    ≡ record { name = "web"; namespace = "default"; kind = "Deployment" }
      ∷ record { name = "one"; namespace = ""; kind = "Pod" }
      ∷ []
unfolding listed get_unique_images extract_workload_images entries_of get_container_images images_of
    pod_spec_of workload_of group_images add_use sort_images insert_sorted
two_users = refl

listed-get_unique_images_example :
    IsDistinct (get_unique_images as_given (web ∷ pod ∷ []))
    × (listed "nginx:1" (get_unique_images as_given (web ∷ pod ∷ []))
        ≡ users "nginx:1" (extract_workload_images (web ∷ pod ∷ [])))
listed-get_unique_images_example = listed-get_unique_images as_given "nginx:1" (web ∷ pod ∷ [])
