-- ===== src/Tests/Matching.antt =====
-- endpoint_matcher.cpp on a publisher and a subscriber of one topic.
use mini_middleware.Prelude.{◌≡◌, ◌↔◌, [], ◌∷◌, true}
use mini_middleware.Discovery.Endpoint.{EndpointInfo, publisher, subscriber, Locator}
use mini_middleware.Discovery.Matcher.{is_match}
use mini_middleware.Discovery.Matcher.Rules.{Matches, is_match_iff}

abbrev talker : EndpointInfo
talker = record {
  kind = publisher;
  topic = 116 ∷ [];
  type_name = 83 ∷ [];
  reliability = 1;
  response_type_name = [];
}

abbrev listener : EndpointInfo
listener = record {
  kind = subscriber;
  topic = 116 ∷ [];
  type_name = 83 ∷ [];
  reliability = 0;
  response_type_name = [];
}

abbrev somewhere : Locator
somewhere = record { ip = 49 ∷ []; port = 7 }

is_match_iff_example : (is_match talker listener ≡ true) ↔ Matches talker listener
is_match_iff_example = is_match_iff talker listener
