-- ===== src/Classifier/Tests.antt =====
-- Texts to try the classifier on.
use cyberwatch_rs.Prelude.{◌==◌, text_eq, if◌then◌else◌, any, String, ◌≡◌, refl, some}
use cyberwatch_rs.Prelude.Text.{to_ascii_lowercase}
use cyberwatch_rs.Prelude.Sets.{member}
use cyberwatch_rs.Classifier.{rules, applies, classify, normalize_severity}
use cyberwatch_rs.Classifier.Laws.{matches, member-classify}

member-classify_example :
    member "ransomware" (classify to_ascii_lowercase "New Ransomware wave") ≡ (
      if any (applies (to_ascii_lowercase "New Ransomware wave")) rules
      then matches (to_ascii_lowercase "New Ransomware wave") "ransomware" rules
      else ◌==◌ {A = String} "general-security" "ransomware")
member-classify_example = member-classify to_ascii_lowercase "New Ransomware wave" "ransomware"

moderate_is_medium : normalize_severity "Moderate" ≡ some "medium"
unfolding normalize_severity
moderate_is_medium = refl
