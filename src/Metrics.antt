-- ===== src/Metrics.antt =====
-- The BLE-MAODV metrics of aodv-rtable.h and aodv-rtable.cc: the weights of the four criteria and
-- how they follow the network's state.
use fp_jaringan_nirkabel.Base.{ℕ, pos, negsuc, if◌then◌else◌}
use fp_jaringan_nirkabel.Net.{Time}
use fp_jaringan_nirkabel.Platform.{Platform, max_double, min_double}

pub record BleMetrics (D : Type 0) : Type 0 where
  pub residual_energy : D
  pub rssi_value : D
  pub stability_score : D
  pub hop_count : ℕ
  pub last_updated : Time

pub record WeightFactors (D : Type 0) : Type 0 where
  pub hop_weight : D
  pub energy_weight : D
  pub rssi_weight : D
  pub stability_weight : D

pub record NetworkContext (D : Type 0) : Type 0 where
  pub node_density : D
  pub mobility_level : D
  pub energy_criticality : D
  pub traffic_criticality : D

module _ {D : Type 0} ⦃o : Platform D⦄ where
  open o use {decimal, of_ℕ, add, sub, mul, div, lt}

  -- Tenths.
  abbrev pub tenths : ℕ → D
  tenths n = decimal (pos n) 1

  unfoldable pub default_metrics : Time → BleMetrics D
  default_metrics now = record {
    residual_energy = tenths 10;
    rssi_value = decimal (negsuc 499) 1;
    stability_score = tenths 10;
    hop_count = 1;
    last_updated = now;
  }

  unfoldable pub weight_factors : ℕ → ℕ → ℕ → ℕ → WeightFactors D
  weight_factors hop energy rssi stability = record {
    hop_weight = tenths hop;
    energy_weight = tenths energy;
    rssi_weight = tenths rssi;
    stability_weight = tenths stability;
  }

  -- The default constructor's weights.
  unfoldable pub default_factors : WeightFactors D
  unfolding weight_factors
  default_factors = weight_factors 4 2 2 2

  unfoldable pub total_weight : WeightFactors D → D
  total_weight w = add (add (add w.hop_weight w.energy_weight) w.rssi_weight) w.stability_weight

  unfoldable pub normalize : WeightFactors D → WeightFactors D
  unfolding total_weight
  normalize w =
      let total = total_weight w in
      if lt (of_ℕ 0) total
      then record {
        hop_weight = div w.hop_weight total;
        energy_weight = div w.energy_weight total;
        rssi_weight = div w.rssi_weight total;
        stability_weight = div w.stability_weight total;
      }
      else w

  unfoldable pub default_context : NetworkContext D
  default_context = record {
    node_density = tenths 5;
    mobility_level = tenths 5;
    energy_criticality = tenths 5;
    traffic_criticality = tenths 5;
  }

  -- The profiles that the constructor of `AdaptiveWeightCalculator` sets up.
  unfoldable pub high_density_weights : WeightFactors D
  unfolding weight_factors
  high_density_weights = weight_factors 2 5 2 1

  unfoldable pub high_mobility_weights : WeightFactors D
  unfolding weight_factors
  high_mobility_weights = weight_factors 2 1 2 5

  unfoldable pub energy_critical_weights : WeightFactors D
  unfolding weight_factors
  energy_critical_weights = weight_factors 1 7 1 1

  unfoldable pub default_weights : WeightFactors D
  unfolding weight_factors
  default_weights = weight_factors 4 2 2 2

  -- The profile for a context: the first threshold that is passed decides.
  unfoldable pub select_profile : NetworkContext D → WeightFactors D
  select_profile c =
      if lt (tenths 3) c.energy_criticality
      then energy_critical_weights
      else if lt (tenths 6) c.mobility_level
      then high_mobility_weights
      else if lt (tenths 7) c.node_density
      then high_density_weights
      else default_weights

  unfoldable pub adjust_for_traffic : NetworkContext D → WeightFactors D → WeightFactors D
  unfolding max_double
  adjust_for_traffic c w =
      if lt (tenths 7) c.traffic_criticality
      then record {
        hop_weight = add w.hop_weight (tenths 1);
        energy_weight = max_double (tenths 1) (sub w.energy_weight (tenths 1));
        rssi_weight = max_double (tenths 1) (sub w.rssi_weight (tenths 1));
        stability_weight = add w.stability_weight (tenths 1);
      }
      else w

  unfoldable pub calculate_weights : NetworkContext D → WeightFactors D
  unfolding select_profile adjust_for_traffic normalize
  calculate_weights c = normalize (adjust_for_traffic c (select_profile c))

  unfoldable pub update_network_context : NetworkContext D → ℕ → D → D → NetworkContext D
  unfolding min_double
  update_network_context c neighbor_count avg_energy mobility_indicator = record c {
    node_density = min_double (tenths 10) (div (of_ℕ neighbor_count) (decimal (pos 200) 1));
    energy_criticality = sub (tenths 10) avg_energy;
    mobility_level = mobility_indicator;
  }
