-- ===== src/Portal/Catalog.antt =====
-- SOFTWARE_CATALOG of app/api/routes/portal.py: the software that is offered without an upload. Categories, icons
-- and descriptions are left out.
use mdm_saa_s.Common.{String, List, [], ◌∷◌}

pub record CatalogItem : Type 0 where
  pub id : String
  pub name : String
  pub pkg_url : String
  pub install_cmd : String

abbrev pub software_catalog : List CatalogItem
software_catalog =
    (record {
      id = "google-chrome";
      name = "Google Chrome";
      pkg_url = "https://dl.google.com/chrome/mac/universal/stable/gcem/googlechrome.dmg";
      install_cmd =
          "cd /tmp && curl -A \"Mozilla/5.0\" -L \"https://dl.google.com/chrome/mac/stable/GGRO/googlechrome.dmg\" -o chrome.dmg && hdiutil attach chrome.dmg -nobrowse -quiet && cp -R \"/Volumes/Google Chrome/Google Chrome.app\" /Applications/ && hdiutil detach \"/Volumes/Google Chrome\" -quiet && rm chrome.dmg";
    })
    ∷ (record {
      id = "firefox";
      name = "Mozilla Firefox";
      pkg_url = "https://download.mozilla.org/?product=firefox-latest-ssl&os=osx&lang=en-US";
      install_cmd =
          "cd /tmp && curl -L \"https://download.mozilla.org/?product=firefox-latest-ssl&os=osx&lang=en-US\" -o firefox.dmg && hdiutil attach firefox.dmg -nobrowse -quiet && cp -R /Volumes/Firefox/Firefox.app /Applications/ && hdiutil detach /Volumes/Firefox -quiet && rm firefox.dmg";
    })
    ∷ (record {
      id = "zoom";
      name = "Zoom";
      pkg_url = "https://zoom.us/client/latest/Zoom.pkg";
      install_cmd =
          "cd /tmp && curl -L \"https://zoom.us/client/latest/Zoom.pkg\" -o zoom.pkg && installer -pkg zoom.pkg -target / && rm zoom.pkg";
    })
    ∷ (record {
      id = "slack";
      name = "Slack";
      pkg_url = "https://slack.com/downloads/mac";
      install_cmd =
          "cd /tmp && curl -L \"https://downloads.slack-edge.com/desktop-releases/mac/x64/latest/Slack.dmg\" -o slack.dmg && hdiutil attach slack.dmg -nobrowse -quiet && cp -R /Volumes/Slack/Slack.app /Applications/ && hdiutil detach /Volumes/Slack -quiet && rm slack.dmg";
    })
    ∷ (record {
      id = "ms-teams";
      name = "Microsoft Teams";
      pkg_url = "https://go.microsoft.com/fwlink/?linkid=2249065";
      install_cmd =
          "cd /tmp && curl -L \"https://go.microsoft.com/fwlink/?linkid=2249065\" -o teams.pkg && installer -pkg teams.pkg -target / && rm teams.pkg";
    })
    ∷ (record {
      id = "vscode";
      name = "Visual Studio Code";
      pkg_url = "https://code.visualstudio.com/sha/download?build=stable&os=darwin-universal";
      install_cmd =
          "cd /tmp && curl -L \"https://code.visualstudio.com/sha/download?build=stable&os=darwin-universal\" -o vscode.zip && unzip -q vscode.zip -d /Applications/ && rm vscode.zip";
    })
    ∷ (record {
      id = "1password";
      name = "1Password";
      pkg_url = "https://downloads.1password.com/mac/1Password.pkg";
      install_cmd =
          "cd /tmp && curl -L \"https://downloads.1password.com/mac/1Password.pkg\" -o 1password.pkg && installer -pkg 1password.pkg -target / && rm 1password.pkg";
    })
    ∷ (record {
      id = "office365";
      name = "Microsoft Office 365";
      pkg_url = "https://go.microsoft.com/fwlink/p/?linkid=2009112";
      install_cmd =
          "cd /tmp && curl -L \"https://go.microsoft.com/fwlink/p/?linkid=2009112\" -o office.pkg && installer -pkg office.pkg -target / && rm office.pkg";
    })
    ∷ (record {
      id = "notion";
      name = "Notion";
      pkg_url = "https://www.notion.so/desktop/mac-universal/download";
      install_cmd =
          "cd /tmp && curl -L \"https://www.notion.so/desktop/mac-universal/download\" -o notion.dmg && hdiutil attach notion.dmg -nobrowse -quiet && cp -R \"/Volumes/Notion/Notion.app\" /Applications/ && hdiutil detach /Volumes/Notion -quiet && rm notion.dmg";
    })
    ∷ []
