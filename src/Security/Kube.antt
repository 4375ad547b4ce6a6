-- ===== src/Security/Kube.antt =====
-- The parts of a Kubernetes object that the scanner reads (renderer/types/k8s.ts). A field that may
-- be missing is an `Option`; of an object whose presence alone is tested a Boolean is kept.
use podscape.Common.{String, Bool, Option, List}

pub record EnvVar : Type 0 where
  pub name : String
  pub value : Option String

pub record Container : Type 0 where
  pub name : String
  pub image : Option String
  pub cpu_limit : Option String
  pub memory_limit : Option String
  pub liveness_probe : Bool
  pub readiness_probe : Bool
  pub env : List EnvVar

pub record PodSpec : Type 0 where
  pub containers : Option (List Container)
  pub init_containers : Option (List Container)

-- `spec`, with `spec.template.spec` and `spec.jobTemplate.spec.template.spec`.
pub record Spec : Type 0 where
  pub own : PodSpec
  pub template : Option PodSpec
  pub job_template : Option PodSpec

pub record Resource : Type 0 where
  pub kind : Option String
  pub name : String
  pub namespace : Option String
  pub uid : String
  pub spec : Option Spec
