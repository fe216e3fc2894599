-- ===== src/Operator/Pods/Command.antt =====
-- The command line of the agent in a pod, which `CreateStatefulSet` of pkg/k8s/resources/resources.go
-- writes.
use tailpost.Base.{bytes, equal, ◌≡◌, refl, ok, map}
use tailpost.Operator.{AgentSpec}
use tailpost.Flags.{
  Defined, parse, parse_one, classify, named_of, split_value, set_argument, set_found, set_flag,
}
use tailpost.Agent.Arguments.{Setting, default_arguments, read_arguments, defined, put, put_all}
use tailpost.Operator.StatefulSets.{Quantities, Requirements, container_of}

-- The arguments that the StatefulSet gives the agent name the file of the ConfigMap.
container_arguments :
    (q : Quantities) (imported : Defined Setting) (s : AgentSpec) (r : Requirements q)
    → read_arguments imported (map bytes (container_of q s r).args)
      ≡ ok (record default_arguments { config_path = bytes "/app/config/config.yaml" })
unfolding read_arguments defined put_all put parse parse_one classify named_of split_value
    set_argument set_found set_flag container_of equal
container_arguments q imported s r = refl
