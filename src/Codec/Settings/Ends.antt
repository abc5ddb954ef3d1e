-- ===== src/Codec/Settings/Ends.antt =====
-- `Configuration`: reading ends.
use hdns.Prelude.{ℕ, length}
use hdns.Codec.Wire.{Wire, WireMoves, Bytes}
use hdns.Codec.Base.{create_base_configuration}
use hdns.Codec.Clauses.Ends.{
  Ends, decode_from-Ends, bool_case-ClauseEnds, double_case-ClauseEnds, int32_case-ClauseEnds,
  string_case-ClauseEnds,
}
use hdns.Codec.Settings.{configuration_cases, decode_configuration}

module _ (w : Wire) (moves : WireMoves w) where
  pub configuration-Ends : (n : ℕ) (b : Bytes) → Ends (length b) (decode_configuration w n b)
  unfolding decode_configuration
  configuration-Ends n b =
      decode_from-Ends w moves create_base_configuration (configuration_cases w) n b (
        int32_case-ClauseEnds w moves 8 _,
        (
          string_case-ClauseEnds w moves 18 _,
          (
            string_case-ClauseEnds w moves 26 _,
            (
              string_case-ClauseEnds w moves 34 _,
              (
                string_case-ClauseEnds w moves 42 _,
                (
                  double_case-ClauseEnds w moves 121 _,
                  (
                    double_case-ClauseEnds w moves 129 _,
                    (
                      int32_case-ClauseEnds w moves 136 _,
                      (
                        int32_case-ClauseEnds w moves 144 _,
                        (
                          bool_case-ClauseEnds w moves 48 _,
                          (
                            bool_case-ClauseEnds w moves 56 _,
                            (
                              string_case-ClauseEnds w moves 66 _,
                              (
                                int32_case-ClauseEnds w moves 72 _,
                                (
                                  string_case-ClauseEnds w moves 82 _,
                                  (
                                    bool_case-ClauseEnds w moves 88 _,
                                    (
                                      string_case-ClauseEnds w moves 98 _,
                                      (
                                        bool_case-ClauseEnds w moves 104 _,
                                        (int32_case-ClauseEnds w moves 112 _, tt),
                                      ),
                                    ),
                                  ),
                                ),
                              ),
                            ),
                          ),
                        ),
                      ),
                    ),
                  ),
                ),
              ),
            ),
          ),
        ),
      )
