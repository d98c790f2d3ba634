-- ===== src/Probes/Listings/Tests.antt =====
-- The two programs in the small world.
use aerogram.Proton.Core.{◌>>=◌, ◌>>◌}
use aerogram.Prelude.{refl, ◌++◌, [], ◌∷◌, codes}
use aerogram.Html.Stream.Tests.{dropper, no_html2text}
use aerogram.Proton.Auth.{restore_session, promote}
use aerogram.Proton.Labels.{system_labels}
use aerogram.Proton.Mock.{mock, mail, fresh, read_params}
use aerogram.Proton.Abi.Tests.{texts}
use aerogram.Probes.Listings.{names_probe, list_probe}
use aerogram.Probes.Listings.Printed.{Prints, Keeps, Names, Shows, listings_shown}

abbrev kept : Keeps texts dropper no_html2text read_params mock 0 7
kept = record {
  folders = record { id = codes "x1"; name = codes "Work" } ∷ [];
  labels = record { id = codes "x1"; name = codes "Work" } ∷ [];
  inbox = record { total = 51; messages = mail (codes "m") 0 ∷ [] };
  all_mail = record { total = 51; messages = mail (codes "m") 0 ∷ [] };
  gives_folders = λ w. refl;
  gives_labels = λ w. refl;
  gives_inbox = λ w. refl;
  gives_all = λ w. refl;
}

listings_shown_example :
    Prints texts dropper no_html2text read_params mock 0
      (names_probe texts dropper no_html2text read_params mock 0)
      7
      (λ (restored, folders, labels).
        Names (system_labels ++ kept.folders) folders × Names kept.labels labels)
      fresh
    × Prints texts dropper no_html2text read_params mock 0
        (list_probe texts dropper no_html2text read_params mock 0)
        7
        (λ (restored, inbox, all).
          Shows texts dropper no_html2text read_params mock 0 kept.inbox inbox
          × Shows texts dropper no_html2text read_params mock 0 kept.all_mail all)
        fresh
unfolding ◌>>=◌ ◌>>◌ restore_session promote
listings_shown_example =
    listings_shown texts dropper no_html2text read_params mock 0 7 kept fresh refl
