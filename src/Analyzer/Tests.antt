-- ===== src/Analyzer/Tests.antt =====
-- The analyzer on concrete states: the theorems at inputs that meet their hypotheses, and runs.
use terraform_state_manager.Prelude.{
  ◌+◌, List, [], ◌∷◌, true, false, none, some, ◌≡◌, refl, Bytes, codes, not, ◌&&◌, ok, str_eq, Map,
}
use mathlib.Core.List.{Perm}
use terraform_state_manager.Prelude.Int.{pos}
use terraform_state_manager.Json.{Json, str, obj, end}
use terraform_state_manager.Analyzer.Labels.{normalize_provider, module_label}
use terraform_state_manager.Analyzer.Legacy.{Resource, State, normalize_legacy}
use terraform_state_manager.Analyzer.Analyze.{
  Analysis, is_data, is_null_type, no_tally, count_all, analysis_of, analyze,
}
use terraform_state_manager.Analyzer.Listing.{
  StateOutput, StateOutputs, OutputSummary, fold_legacy, list_outputs,
}
use terraform_state_manager.Analyzer.Sums.{size, is_managed, counted}
use terraform_state_manager.Analyzer.Totals.{analyze-totals, analyze-breakdowns}
use terraform_state_manager.Analyzer.Ranking.{IsRanked, analyze-IsRanked}
use terraform_state_manager.Analyzer.Redaction.{
  IsOrdered, is_lower, AllShown, list_outputs-IsRedacted,
}

abbrev instance_of : Bytes → Json
instance_of k = str k

abbrev vpcs : Resource
vpcs = record {
  mod_path = codes "module.net";
  mode = codes "managed";
  typ = codes "aws_vpc";
  name = codes "a";
  provider = codes "provider.aws";
  instances = instance_of (codes "x") ∷ instance_of (codes "y") ∷ [];
}

abbrev nulls : Resource
nulls = record {
  mod_path = [];
  mode = codes "managed";
  typ = codes "null_resource";
  name = codes "n";
  provider = [];
  instances = instance_of (codes "x") ∷ [];
}

abbrev image : Resource
image = record {
  mod_path = [];
  mode = codes "data";
  typ = codes "aws_ami";
  name = codes "i";
  provider = codes "provider.aws";
  instances = instance_of (codes "x") ∷ [];
}

abbrev state : State
state = record {
  version = pos 4;
  terraform_version = codes "1.9.0";
  serial = pos 3;
  lineage = codes "l";
  resources = nulls ∷ vpcs ∷ image ∷ [];
  modules = [];
}

abbrev result : Analysis
result =
    analysis_of (normalize_legacy state) (count_all (normalize_legacy state).resources no_tally)

analyzed : analyze (some state) ≡ ok result
unfolding analyze
analyzed = refl

counts_test :
    result.resource_types
    ≡ record { name = codes "aws_vpc"; count = 2 }
      ∷ record { name = codes "null_resource"; count = 1 }
      ∷ []
unfolding analysis_of normalize_legacy count_all str_eq
counts_test = refl

analyze-totals_example :
    let rs = (normalize_legacy state).resources in
    (result.data_sources ≡ size is_data rs)
    × (result.managed_resources ≡ size is_managed rs)
    × (result.total_resources ≡ size is_managed rs + size is_data rs)
    × (result.rum ≡ size (λ r. is_managed r && not (is_null_type r)) rs)
    × (result.rum + result.null_resources ≡ result.managed_resources)
analyze-totals_example = analyze-totals state result analyzed

analyze-breakdowns_example :
    let rs = (normalize_legacy state).resources in
    let p = str_eq (codes "aws") in
    (counted p result.resource_types ≡ size (λ r. is_managed r && p r.typ) rs)
    × (counted p result.providers
        ≡ size (λ r. is_managed r && p (normalize_provider r.provider r.typ)) rs)
    × (counted p result.modules ≡ size (λ r. is_managed r && p (module_label r.mod_path)) rs)
analyze-breakdowns_example = analyze-breakdowns state result (str_eq (codes "aws")) analyzed

analyze-IsRanked_example :
    IsRanked result.resource_types × IsRanked result.providers × IsRanked result.modules
analyze-IsRanked_example = analyze-IsRanked state result analyzed

-- A state of an older format: the primary instance and a deposed one.
abbrev old : State
old = record {
  version = pos 3;
  terraform_version = codes "0.11.14";
  serial = pos 1;
  lineage = codes "l";
  resources = [];
  modules =
      record {
        path = codes "root" ∷ codes "vpc" ∷ [];
        resources =
            (
              codes "aws_instance.web.0",
              record {
                typ = [];
                provider = codes "provider.aws.west";
                primary = some (obj end);
                deposed = obj end ∷ [];
              },
            )
            ∷ [];
      }
      ∷ [];
}

legacy_test :
    (normalize_legacy old).resources
    ≡ record {
      mod_path = codes "module.vpc";
      mode = codes "managed";
      typ = codes "aws_instance";
      name = codes "web.0";
      provider = codes "provider.aws.west";
      instances = obj end ∷ obj end ∷ [];
    }
      ∷ []
unfolding normalize_legacy str_eq
legacy_test = refl

abbrev outputs : StateOutputs
outputs = record {
  version = pos 4;
  lineage = codes "l";
  outputs =
      (
        codes "secret",
        record {
          value = some (str (codes "s"));
          typ = some (str (codes "string"));
          sensitive = true;
        },
      )
      ∷ (
        codes "name",
        record {
          value = some (str (codes "n"));
          typ = some (str (codes "string"));
          sensitive = false;
        },
      )
      ∷ [];
  resources = [];
  modules = [];
}

abbrev shown : List OutputSummary
shown =
    record {
      name = codes "name";
      typ = codes "string";
      sensitive = false;
      value = some (str (codes "n"));
    }
    ∷ record { name = codes "secret"; typ = codes "string"; sensitive = true; value = none }
    ∷ []

listed : list_outputs (some outputs) ≡ ok shown
unfolding list_outputs
listed = refl

list_outputs-IsRedacted_example :
    IsOrdered is_lower shown
    × ((found : Map StateOutput) × Perm found (fold_legacy outputs) × AllShown found shown)
list_outputs-IsRedacted_example = list_outputs-IsRedacted outputs shown listed
