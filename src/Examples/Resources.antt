-- ===== src/Examples/Resources.antt =====
-- A client whose window cannot be opened, documents that are shared, and connections to a server.
use quintses.Common.{◌≡◌, true, false, some, [], ◌∷◌, arith}
use quintses.Common.Map.{lookup}
use quintses.Client.Platform.{
  Screen, LoaderScreen, initialize_platform, finalize_platform, colormap, no_window,
}
use quintses.Client.Platform.Resources.{held, thrown, initialize_platform-releases}
use quintses.Xml.Handles.{Doms, to, null, assigns, call}
use quintses.Xml.Handles.Counts.{Inv, shares, losses}
use quintses.Xml.Handles.Calls.{call-Inv}

abbrev screen : Screen
screen = record { display = true; nelements = 3; visual = true; window = false; context = true }

initialize_platform-releases_example :
    (thrown (initialize_platform screen) ≡ some no_window)
    × (held colormap (initialize_platform screen) false ≡ some true)
    × (held colormap finalize_platform true ≡ some true)
initialize_platform-releases_example = initialize_platform-releases screen colormap

abbrev loader_screen : LoaderScreen
loader_screen = record { nelements = 0; pbuffer = true; context = true }

-- Two handles of one document and one of none, and the count of a text that could not be parsed.
abbrev doms : Doms
doms = record {
  counts = (0, 2) ∷ (1, 1) ∷ [];
  next = 2;
  handles = to 0 ∷ null ∷ to 0 ∷ [];
  lost = 1 ∷ [];
}

doms-Inv : Inv doms
unfolding lookup shares losses
doms-Inv = record {
  counted_by = λ a. ground arith;
  apart = λ a h. ground arith;
  fresh = λ a h. ground arith;
}

call-Inv_example : (s : Doms) × (call (assigns 1 2) doms ≡ some s) × Inv s
call-Inv_example =
    call-Inv doms doms-Inv (omega arith) (assigns 1 2)
      (omega arith, λ a same e. absurd (omega arith))
