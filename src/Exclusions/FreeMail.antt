-- ===== src/Exclusions/FreeMail.antt =====
-- packages/shared/src/exclusions/free-mail.ts: mail domains that anyone may have an address at.
use growthmind.Prelude.{
  Text, text, text_eq, Bool, false, List, [], ◌∷◌, any, is_empty, if◌then◌else◌, trim,
}
use growthmind.Platform.{Platform}

abbrev pub free_mail_domains : List Text
free_mail_domains =
    text "gmail.com"
    ∷ text "googlemail.com"
    ∷ text "outlook.com"
    ∷ text "hotmail.com"
    ∷ text "hotmail.co.uk"
    ∷ text "live.com"
    ∷ text "live.co.uk"
    ∷ text "msn.com"
    ∷ text "yahoo.com"
    ∷ text "yahoo.co.uk"
    ∷ text "yahoo.co.jp"
    ∷ text "ymail.com"
    ∷ text "rocketmail.com"
    ∷ text "aol.com"
    ∷ text "icloud.com"
    ∷ text "me.com"
    ∷ text "mac.com"
    ∷ text "proton.me"
    ∷ text "protonmail.com"
    ∷ text "pm.me"
    ∷ text "gmx.com"
    ∷ text "gmx.de"
    ∷ text "gmx.net"
    ∷ text "web.de"
    ∷ text "mail.com"
    ∷ text "mail.ru"
    ∷ text "yandex.ru"
    ∷ text "yandex.com"
    ∷ text "zoho.com"
    ∷ text "fastmail.com"
    ∷ text "hey.com"
    ∷ text "tutanota.com"
    ∷ text "tuta.io"
    ∷ text "duck.com"
    ∷ text "qq.com"
    ∷ text "163.com"
    ∷ text "126.com"
    ∷ text "naver.com"
    ∷ text "daum.net"
    ∷ text "seznam.cz"
    ∷ text "orange.fr"
    ∷ text "free.fr"
    ∷ text "wanadoo.fr"
    ∷ text "laposte.net"
    ∷ text "libero.it"
    ∷ text "virgilio.it"
    ∷ text "t-online.de"
    ∷ text "bluewin.ch"
    ∷ text "comcast.net"
    ∷ text "verizon.net"
    ∷ text "att.net"
    ∷ text "sbcglobal.net"
    ∷ text "bellsouth.net"
    ∷ text "cox.net"
    ∷ text "btinternet.com"
    ∷ text "sky.com"
    ∷ text "ntlworld.com"
    ∷ text "shaw.ca"
    ∷ text "rogers.com"
    ∷ text "bigpond.com"
    ∷ text "optusnet.com.au"
    ∷ text "xtra.co.nz"
    ∷ text "rediffmail.com"
    ∷ text "sina.com"
    ∷ text "hushmail.com"
    ∷ text "inbox.com"
    ∷ text "mailinator.com"
    ∷ text "yopmail.com"
    ∷ text "guerrillamail.com"
    ∷ text "10minutemail.com"
    ∷ text "trashmail.com"
    ∷ text "sharklasers.com"
    ∷ text "temp-mail.org"
    ∷ []

unfoldable pub is_free_mail_domain : Platform → Text → Bool
is_free_mail_domain W domain =
    let normalised = W.to_lower_case (trim domain) in
    if is_empty normalised then false else any free_mail_domains (λ d. text_eq d normalised)
