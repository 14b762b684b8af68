-- ===== src/Tests/Config.antt =====
-- config.cpp on short texts.
use mini_middleware.Prelude.{◌≡◌, refl, none, codes}
use mini_middleware.Config.{parse_unsigned, parse_digits, MiddlewareConfig, default_config, apply}
use mini_middleware.Config.Numbers.{
  number_up_to, port_setting, depth_setting, apply_takes_exact_numbers,
}

-- One above the largest 16-bit number is refused.
parse_unsigned_over : parse_unsigned (codes "65536") 65535 ≡ none
unfolding parse_unsigned parse_digits
parse_unsigned_over = refl

abbrev cfg : MiddlewareConfig
cfg = default_config

apply_takes_exact_numbers_example :
    (apply cfg (codes "discovery") (codes "port") (codes "65535")
      ≡ port_setting cfg (number_up_to 65535 (codes "65535")))
    × (apply cfg (codes "qos") (codes "depth") (codes "65535")
        ≡ depth_setting cfg (number_up_to 4294967295 (codes "65535")))
apply_takes_exact_numbers_example = apply_takes_exact_numbers cfg (codes "65535")
